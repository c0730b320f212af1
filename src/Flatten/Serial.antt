-- ===== src/Flatten/Serial.antt =====
-- FlattenSerial: the writeback connector of the CRTC that drives the display.
use drm_hwcomposer.Base.{
  ℕ, Bool, true, false, not, ◌&&◌, ◌||◌, Option, none, some, List, [], ◌∷◌, ◌++◌, ℤ, pos, einval,
  enomem, ealready, if◌then◌else◌, ◌==◌, is_neg, is_set, length,
}
use drm_hwcomposer.Resources.{Plane, Crtc, get_crtc_supported, plane_type_primary}
use drm_hwcomposer.Connector.{Connector}
use drm_hwcomposer.Layer.{Bo, DrmLayer, import_buffer}
use drm_hwcomposer.Composition.{Composition, add_plane_disable, add_plane_composition}
use drm_hwcomposer.Kernel.{Kernel}
use drm_hwcomposer.Compositor.Frame.{setup_writeback_commit}
use drm_hwcomposer.Compositor.Apply.{apply_frame}
use drm_hwcomposer.Flatten.State.{
  Flattener, Setting, create_initialized_composition, next_framebuffer, allocate_writeback,
  full_layer, take_writeback_fence, flattening_needed, squashed_plane,
}

-- The loop over the planes of the device: the first primary plane that the CRTC supports shows the
-- flattened frame, and all others that it supports are disabled.
unfoldable pub squash_serial :
    Crtc → Option Plane → List Plane → Composition → Option Plane × Composition
unfolding get_crtc_supported add_plane_disable
squash_serial crtc found [] c = (found, c)
squash_serial crtc found (p ∷ ps) c =
    let taken = squash_serial crtc (some p) ps c in
    let passed = squash_serial crtc found ps c in
    let disabled = squash_serial crtc found ps (add_plane_disable p c) in
    let free : Bool = elim found [ none ↦ true | some q ↦ false ] in
    if not (get_crtc_supported crtc p)
    then passed
    else if free && p.kind == plane_type_primary
    then taken
    else disabled

module _ {K : Type 0} (kernel : Kernel K) where
  -- The part under the lock: the framebuffer that is taken, or the error.
  unfoldable pub serial_begin : Flattener K → Option (ℤ × ℕ × Flattener K)
  unfolding flattening_needed next_framebuffer
  serial_begin f = elim (flattening_needed f.compositor) [
    | none ↦ none
    | some false ↦ some (ealready, 0, f)
    | some true ↦ let taken = next_framebuffer f in some (pos 0, taken.0, taken.1)
  ]

  -- The writeback itself: a request for it alone is committed, and its fence waited for.
  unfoldable pub serial_writeback :
      Setting K → Crtc → Connector → DrmLayer → Bo → Flattener K → ℤ × DrmLayer × Flattener K
  unfolding setup_writeback_commit take_writeback_fence
  serial_writeback e crtc writeback_conn l bo f =
      let k = f.compositor.kernel_state in
      let set = setup_writeback_commit kernel k [] crtc.id writeback_conn bo in
      let done = kernel.commit k set.1 0 in
      let f1 = record f { compositor = record (f.compositor) { kernel_state = done.1 } } in
      if is_neg set.0
      then (set.0, l, f)
      else if is_set done.0
      then (done.0, l, f1)
      else take_writeback_fence e l f1

  -- The end: the composition of the one layer, which ApplyFrame shows if no frame came meanwhile.
  unfoldable pub serial_apply :
      Setting K → Crtc → DrmLayer → Composition → Flattener K → Option (ℤ × Flattener K)
  unfolding squash_serial add_plane_composition apply_frame
  serial_apply e crtc l comp f =
      let squashed =
        squash_serial crtc none e.planes (record comp { layers = comp.layers ++ l ∷ [] }) in
      let added = add_plane_composition (squashed_plane crtc squashed.0) squashed.1 in
      if is_set added.0
      then some (added.0, f)
      else elim (apply_frame kernel added.1 (pos 0) true f.compositor) [
        | none ↦ none
        | some s ↦ some (pos 0, record f { compositor = s })
      ]

  unfoldable pub serial_commit :
      Setting K → Connector → Composition → Crtc → DrmLayer → Flattener K → Option (ℤ × Flattener K)
  unfolding serial_writeback serial_apply
  serial_commit e writeback_conn comp crtc l f = elim l.buffer [
    | none ↦ none
    | some bo ↦
        let done : ℤ × DrmLayer × Flattener K = serial_writeback e crtc writeback_conn l bo f in
        if is_set done.0 then some (done.0, done.2) else serial_apply e crtc done.1 comp done.2
  ]

  unfoldable pub serial_imported :
      Setting K → Connector → Composition → ℤ × DrmLayer → Flattener K → Option (ℤ × Flattener K)
  unfolding serial_commit
  serial_imported e writeback_conn comp (ret, l) f =
      if is_set ret || not (length (comp.layers ++ l ∷ []) == 1)
      then some (ret, f)
      else if not (kernel.can_alloc f.compositor.kernel_state)
      then some (enomem, f)
      else elim f.compositor.crtc [
        | none ↦ some (einval, f)
        | some crtc ↦ serial_commit e writeback_conn comp crtc l f
      ]

  -- The part behind the lock, with the framebuffer that was taken. The importer is looked up again,
  -- and read.
  unfoldable pub serial_rest :
      Setting K → Connector → Composition → ℕ → Flattener K → Option (ℤ × Flattener K)
  unfolding allocate_writeback full_layer import_buffer serial_imported
  serial_rest e writeback_conn comp i f = elim (allocate_writeback e i f) [
    | none ↦ none
    | some (done, handle, f') ↦ if not done then some (enomem, f') else elim e.importer [
      | none ↦ none
      | some importer ↦
          serial_imported e writeback_conn comp
            (import_buffer importer (full_layer handle f'.compositor.mode.mode)) f'
    ]
  ]

  -- FlattenSerial, if nobody else takes the lock meanwhile.
  unfoldable pub flatten_serial : Setting K → Connector → Flattener K → Option (ℤ × Flattener K)
  unfolding create_initialized_composition serial_begin serial_rest
  flatten_serial e writeback_conn f = elim (create_initialized_composition e f.compositor) [
    | none ↦ some (einval, f)
    | some comp ↦ elim (serial_begin f) [
      | none ↦ none
      | some (ret, i, f') ↦
          if is_set ret then some (ret, f') else serial_rest e writeback_conn comp i f'
    ]
  ]
