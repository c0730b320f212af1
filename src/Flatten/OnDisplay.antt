-- ===== src/Flatten/OnDisplay.antt =====
-- FlattenOnDisplay: a composition is written back on the CRTC of another display.
use drm_hwcomposer.Base.{
  ℕ, true, false, not, ◌&&◌, Option, none, some, List, ℤ, pos, einval, enomem, if◌then◌else◌, ◌==◌,
  is_set, find?, select,
}
use drm_hwcomposer.Resources.{
  Plane, Crtc, get_crtc_supported, plane_type_primary, plane_type_overlay,
}
use drm_hwcomposer.Mode.{Mode}
use drm_hwcomposer.Connector.{Connector, RawConnector, update_modes}
use drm_hwcomposer.Layer.{DrmLayer, import_buffer}
use drm_hwcomposer.Composition.{Composition, Pools, planned, null_crtc, plan, disable_all}
use drm_hwcomposer.Kernel.{Kernel}
use drm_hwcomposer.Compositor.State.{Compositor, destroy_property_blob, create_mode_blob}
use drm_hwcomposer.Compositor.Frame.{commit_frame}
use drm_hwcomposer.Flatten.State.{
  Flattener, Setting, next_framebuffer, allocate_writeback, take_writeback_fence,
}

-- The result of FlattenOnDisplay, with the layer that it fills in.
abbrev pub Flattened : Type 0 → Type 0
Flattened K = Option (ℤ × DrmLayer × Flattener K)

module _ {K : Type 0} (kernel : Kernel K) where
  -- The first mode with the size of `src_mode` becomes the mode; the blob before it goes.
  unfoldable pub choose_mode : List Mode → Mode → Compositor K → ℤ × Compositor K
  unfolding destroy_property_blob create_mode_blob
  choose_mode modes src_mode s =
      elim (find? (λ m. m.h_display == src_mode.h_display && m.v_display == src_mode.v_display)
        modes) [
          | none ↦ (pos 0, s)
          | some m ↦
              let cleared =
                if s.mode.blob_id == 0
                then s.kernel_state
                else (destroy_property_blob kernel s.mode.blob_id s.kernel_state).1 in
              let made = create_mode_blob kernel m cleared in
              (
                made.0,
                record s {
                  mode = record {
                    needs_modeset = if is_set made.0 then s.mode.needs_modeset else true;
                    mode = m;
                    blob_id = made.1;
                    old_blob_id = s.mode.old_blob_id;
                  };
                  kernel_state = made.2;
                },
              )
        ]

  -- The pools of the planes that the CRTC supports, by their types.
  unfoldable pub split_supported : Crtc → List Plane → Pools
  unfolding get_crtc_supported
  split_supported crtc planes = record {
    primary = select (λ p. get_crtc_supported crtc p && p.kind == plane_type_primary) planes;
    overlay = select (λ p. get_crtc_supported crtc p && p.kind == plane_type_overlay) planes;
  }

  -- The composition is tested and committed with the writeback.
  unfoldable pub commit_writeback :
      Setting K → Composition → Connector → DrmLayer → Flattener K → Flattened K
  unfolding commit_frame take_writeback_fence
  commit_writeback e src writeback_conn l f =
      elim (commit_frame kernel src true (some writeback_conn) l.buffer f.compositor) [
        | none ↦ none
        | some (ret, s, c) ↦
            if is_set ret
            then some (ret, l, record f { compositor = s })
            else elim (commit_frame kernel c false (some writeback_conn) l.buffer s) [
              | none ↦ none
              | some (ret', s', c') ↦
                  if is_set ret'
                  then some (ret', l, record f { compositor = s' })
                  else some (take_writeback_fence e l (record f { compositor = s' }))
            ]
      ]

  -- The part under the lock.
  unfoldable pub write_back :
      Setting K → Composition → Connector → DrmLayer → Flattener K → Flattened K
  unfolding next_framebuffer allocate_writeback import_buffer commit_writeback
  write_back e src writeback_conn l f =
      let taken = next_framebuffer f in
      elim (allocate_writeback e taken.0 taken.1) [
        | none ↦ none
        | some (done, handle, f') ↦ if not done then some (enomem, l, f') else elim e.importer [
          | none ↦ none
          | some importer ↦
              let imported = import_buffer importer (record l { sf_handle = handle }) in
              if is_set imported.0
              then some (imported.0, imported.1, f')
              else commit_writeback e src writeback_conn imported.1 f'
        ]
      ]

  plan_and_write : Setting K → Composition → Connector → Crtc → DrmLayer → Flattener K → Flattened K
  unfolding split_supported write_back
  plan_and_write e src writeback_conn crtc l f = elim (plan src (split_supported crtc e.planes)) [
    | null_crtc ↦ none
    | planned ret c pools ↦
        if is_set ret
        then some (ret, l, f)
        else write_back e (disable_all pools.overlay (disable_all pools.primary c)) writeback_conn l
            f
  ]

  -- Behind UpdateModes, with the writeback connector's modes.
  unfoldable pub flatten_with_modes :
      Setting K → Composition → Connector → Mode → DrmLayer → Flattener K → Flattened K
  unfolding choose_mode plan_and_write
  flatten_with_modes e src writeback_conn src_mode l f =
      let chosen = choose_mode writeback_conn.modes src_mode f.compositor in
      let f1 = record f { compositor = chosen.1 } in
      let s1 : Compositor K = chosen.1 in
      if is_set chosen.0
      then some (chosen.0, l, f1)
      else if s1.mode.blob_id == 0
      then some (einval, l, f1)
      else elim s1.crtc [
        | none ↦ some (einval, l, f1)
        | some crtc ↦ plan_and_write e src writeback_conn crtc l f1
      ]

  -- FlattenOnDisplay, from what drmModeGetConnector returns of the writeback connector and the
  -- device's counter of mode ids; both changed by UpdateModes, they come back first.
  unfoldable pub flatten_on_display :
      Setting K
      → Composition
      → Option RawConnector
      → ℕ
      → Connector
      → Mode
      → DrmLayer
      → Flattener K
      → (ℕ × Connector) × Flattened K
  unfolding update_modes flatten_with_modes
  flatten_on_display e src raw mode_id writeback_conn src_mode l f =
      let updated = update_modes raw mode_id writeback_conn in
      (
        (updated.1, updated.2),
        if is_set updated.0
            then some (updated.0, l, f)
            else flatten_with_modes e src updated.2 src_mode l f,
      )
