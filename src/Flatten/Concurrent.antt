-- ===== src/Flatten/Concurrent.antt =====
-- FlattenConcurrent: a second compositor writes a copy of the frame back on the CRTC of the
-- writeback connector's display, which may belong to another device.
use drm_hwcomposer.Base.{
  ℕ, Bool, true, false, not, Option, none, some, List, [], ◌∷◌, ◌++◌, ℤ, pos, neg, einval, ealready,
  if◌then◌else◌, ◌==◌, is_set,
}
use drm_hwcomposer.Resources.{Plane, Crtc, get_crtc_supported, plane_type_primary}
use drm_hwcomposer.Connector.{Connector, RawConnector}
use drm_hwcomposer.Layer.{
  DrmLayer, new_layer, pre_mult, Importer, import_buffer, init_from_layer, get_usable_handle,
}
use drm_hwcomposer.Composition.{Composition, set_layers, add_plane_disable, add_plane_composition}
use drm_hwcomposer.Kernel.{Kernel}
use drm_hwcomposer.Compositor.State.{Compositor, create, destroy_property_blob}
use drm_hwcomposer.Compositor.Apply.{apply_frame}
use drm_hwcomposer.Framebuffer.{Framebuffer, new_framebuffer, destroy}
use drm_hwcomposer.Flatten.State.{
  Flattener, Setting, create_initialized_composition, full_layer, flattening_needed, squashed_plane,
}
use drm_hwcomposer.Flatten.OnDisplay.{flatten_on_display}

-- The loop over the planes of the device: each primary plane that the CRTC supports takes the place
-- of the one before it, and the others that it supports are disabled.
unfoldable pub squash_concurrent :
    Crtc → Option Plane → List Plane → Composition → Option Plane × Composition
unfolding get_crtc_supported add_plane_disable
squash_concurrent crtc found [] c = (found, c)
squash_concurrent crtc found (p ∷ ps) c =
    let taken = squash_concurrent crtc (some p) ps c in
    let passed = squash_concurrent crtc found ps c in
    let disabled = squash_concurrent crtc found ps (add_plane_disable p c) in
    if not (get_crtc_supported crtc p)
    then passed
    else if p.kind == plane_type_primary
    then taken
    else disabled

-- The copies of the frame's layers, imported for the other device; `none` if one fails.
unfoldable pub copy_layers : Importer → List DrmLayer → Option (List DrmLayer)
unfolding init_from_layer
copy_layers importer [] = some []
copy_layers importer (l ∷ ls) =
    let copy = init_from_layer importer l in
    let rest = copy_layers importer ls in
    if is_set copy.0 then none else elim rest [ none ↦ none | some copies ↦ some (copy.1 ∷ copies) ]

-- The display of the writeback connector as the resource manager finds it: whether it has a device,
-- its connector, CRTC and setting, what drmModeGetConnector returns of the writeback connector, and
-- the device's counter of mode ids.
pub record Target (K : Type 0) : Type 0 where
  pub has_device : Bool
  pub connector : Option Connector
  pub crtc : Option Crtc
  pub setting : Setting K
  pub raw : Option RawConnector
  pub mode_id : ℕ

-- A compositor that was just created, with its framebuffers. The constructor leaves
-- `framebuffer_index_` as it is in memory.
unfoldable pub new_flattener : {K : Type 0} → Option Connector → Option Crtc → ℕ → K → Flattener K
unfolding create
new_flattener connector crtc index k = record {
  compositor = create connector crtc k;
  framebuffers = new_framebuffer ∷ new_framebuffer ∷ new_framebuffer ∷ [];
  framebuffer_index = index;
  writeback_fence = neg 1;
  closed = [];
}

unfoldable pub destroy_all : List Framebuffer → List ℤ
unfolding destroy
destroy_all [] = []
destroy_all (f ∷ fs) = destroy f ++ destroy_all fs

-- The destructor of a compositor that was initialised, as far as the kernel sees it.
unfoldable pub destroy_compositor : {K : Type 0} → Kernel K → Compositor K → K
unfolding destroy_property_blob
destroy_compositor kernel s =
    let first =
      if s.mode.blob_id == 0
      then s.kernel_state
      else (destroy_property_blob kernel s.mode.blob_id s.kernel_state).1 in
    if s.mode.old_blob_id == 0
    then first
    else (destroy_property_blob kernel s.mode.old_blob_id first).1

-- The second kernel is that of the writeback connector's device, over the same state.
module _ {K : Type 0} (kernel wb_kernel : Kernel K) where
  -- The end: the layer with the frame that was written back is shown on the display.
  unfoldable pub concurrent_apply :
      Setting K → Crtc → ℕ → Composition → Flattener K → Option (ℤ × Flattener K)
  unfolding squash_concurrent import_buffer add_plane_composition apply_frame full_layer
  concurrent_apply e crtc handle comp f =
      let squashed = squash_concurrent crtc none e.planes comp in
      let filled = record (full_layer handle f.compositor.mode.mode) { blending = pre_mult } in
      elim e.importer [
        | none ↦ none
        | some importer ↦
            let imported = import_buffer importer filled in
            let c = squashed.1 in
            let shown = record c { layers = c.layers ++ imported.1 ∷ [] } in
            let added = add_plane_composition (squashed_plane crtc squashed.0) shown in
            if is_set imported.0
            then some (imported.0, f)
            else if is_set added.0
            then some (added.0, f)
            else elim (apply_frame kernel added.1 (pos 0) true f.compositor) [
              | none ↦ none
              | some s ↦ some (pos 0, record f { compositor = s })
            ]
      ]

  -- The local compositor goes when the function returns.
  abbrev drop_inner : Flattener K → Flattener K → Flattener K
  unfolding destroy_compositor destroy_all
  drop_inner inner f =
      let held = record (inner.compositor) { kernel_state = f.compositor.kernel_state } in
      record f {
        compositor = record (f.compositor) { kernel_state = destroy_compositor wb_kernel held };
        closed = f.closed ++ inner.closed ++ destroy_all inner.framebuffers;
      }

  -- Behind the lock: the copy is written back, and then shown. A null CRTC would be read.
  concurrent_rest :
      Setting K
      → Target K
      → Connector
      → Option Crtc
      → Composition
      → Composition
      → Flattener K
      → Flattener K
      → Option (ℤ × Flattener K)
  unfolding flatten_on_display concurrent_apply destroy_compositor destroy_all get_usable_handle
  concurrent_rest e t writeback_conn crtc copy_comp comp inner f =
      elim (flatten_on_display wb_kernel t.setting copy_comp t.raw t.mode_id writeback_conn
        f.compositor.mode.mode new_layer inner).1 [
          | none ↦ none
          | some (ret, l, inner') ↦
              let f1 = record f {
                compositor = record (f.compositor) {
                  kernel_state = inner'.compositor.kernel_state;
                };
              } in
              if is_set ret then some (ret, drop_inner inner' f1) else elim crtc [
                | none ↦ none
                | some own ↦ elim (concurrent_apply e own (get_usable_handle l) comp f1) [
                  | none ↦ none
                  | some (ret', f2) ↦ some (ret', drop_inner inner' f2)
                ]
              ]
        ]

  -- The part under the lock, for the composition that is active.
  concurrent_copy :
      Setting K
      → Target K
      → Connector
      → Composition
      → Composition
      → Composition
      → Flattener K
      → Flattener K
      → Option (ℤ × Flattener K)
  unfolding copy_layers set_layers concurrent_rest destroy_compositor destroy_all
  concurrent_copy e t writeback_conn active copy_comp comp inner f = elim t.setting.importer [
    | none ↦ none
    | some importer ↦ elim (copy_layers importer active.layers) [
      | none ↦ some (einval, drop_inner inner f)
      | some copies ↦
          let set = set_layers copies true copy_comp in
          if is_set set.0
          then some (set.0, drop_inner inner f)
          else concurrent_rest e t writeback_conn active.crtc set.1 comp inner f
    ]
  ]

  unfoldable pub concurrent_ready :
      Setting K
      → Target K
      → Connector
      → Composition
      → Composition
      → Flattener K
      → Flattener K
      → Option (ℤ × Flattener K)
  unfolding flattening_needed concurrent_copy destroy_compositor destroy_all
  concurrent_ready e t writeback_conn copy_comp comp inner f =
      elim (flattening_needed f.compositor) [
        | none ↦ none
        | some false ↦ some (ealready, drop_inner inner f)
        | some true ↦ elim f.compositor.active_composition [
          | none ↦ none
          | some active ↦ concurrent_copy e t writeback_conn active copy_comp comp inner f
        ]
      ]

  -- FlattenConcurrent, if nobody else takes the lock meanwhile; `index` is what
  -- `framebuffer_index_` of the local compositor holds.
  unfoldable pub flatten_concurrent :
      Setting K → Target K → ℕ → Connector → Flattener K → Option (ℤ × Flattener K)
  unfolding new_flattener create_initialized_composition concurrent_ready destroy_compositor
      destroy_all
  flatten_concurrent e t index writeback_conn f =
      let inner = new_flattener t.connector t.crtc index f.compositor.kernel_state in
      if not t.has_device
      then some (einval, f)
      else elim (create_initialized_composition t.setting inner.compositor) [
        | none ↦ some (einval, drop_inner inner f)
        | some copy_comp ↦ elim (create_initialized_composition e f.compositor) [
          | none ↦ some (einval, drop_inner inner f)
          | some comp ↦ concurrent_ready e t writeback_conn copy_comp comp inner f
        ]
      ]
