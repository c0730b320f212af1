-- ===== src/Compositor/Apply.antt =====
-- Bringing a composition to the display: ApplyComposition and what it calls.
use drm_hwcomposer.Base.{
  suc, Bool, true, false, not, ◌&&◌, Option, none, some, List, [], ◌∷◌, ℤ, pos, einval, enomem,
  if◌then◌else◌, ◌==◌, is_set,
}
use drm_hwcomposer.Planner.{CompositionPlane}
use drm_hwcomposer.Composition.{Composition, CompositionType, empty, frame, dpms, modeset, dpms_on}
use drm_hwcomposer.Kernel.{Kernel, Request, add_both}
use drm_hwcomposer.Commit.{request}
use drm_hwcomposer.Compositor.State.{
  Compositor, flatten_countdown_init, countdown_expired, destroy_property_blob, create_mode_blob,
  apply_dpms,
}
use drm_hwcomposer.Compositor.Frame.{commit_frame}

module _ {K : Type 0} (kernel : Kernel K) where
  -- The loop of DisablePlanes; `ret` is 1 where a call fails.
  unfoldable pub disable_requests :
      K → List CompositionPlane → List Request → Option (Bool × List Request)
  unfolding add_both
  disable_requests k [] pset = some (false, pset)
  disable_requests k (c ∷ cs) pset = elim c.plane [
    | none ↦ none
    | some plane ↦
        let added =
          add_both kernel k pset (request plane plane.crtc_property (pos 0))
            (request plane plane.fb_property (pos 0)) in
        let rest = disable_requests k cs added.1 in if added.0 then some added else rest
  ]

  unfoldable pub disable_planes : Composition → Compositor K → Option (ℤ × Compositor K)
  unfolding disable_requests
  disable_planes c s =
      if not (kernel.can_alloc s.kernel_state)
      then some (enomem, s)
      else elim (disable_requests s.kernel_state c.composition_planes []) [
        | none ↦ none
        | some (failed, pset) ↦
            let done = kernel.commit s.kernel_state pset 0 in
            if failed then some (pos 1, s) else some (done.0, record s { kernel_state = done.1 })
      ]

  unfoldable pub clear_display : Compositor K → Option (Compositor K)
  unfolding disable_planes
  clear_display s = elim s.active_composition [
    | none ↦ some s
    | some active ↦ elim (disable_planes active s) [
      | none ↦ none
      | some (ret, s1) ↦
          if is_set ret
          then some s1
          else some (record s1 { active_composition = none; vsync_enabled = false })
    ]
  ]

  -- The end of ApplyFrame, after the commit.
  abbrev settle : Bool → ℤ × Compositor K × Composition → Option (Compositor K)
  unfolding clear_display
  settle writeback (ret, s, c) =
      if is_set ret
      then clear_display s
      else some (record s {
        frames_composited = suc s.frames_composited;
        active_composition = some c;
        flatten_countdown = flatten_countdown_init;
        vsync_enabled = not writeback;
      })

  -- ApplyFrame, with the compositor's lock taken.
  unfoldable pub apply_frame : Composition → ℤ → Bool → Compositor K → Option (Compositor K)
  unfolding clear_display commit_frame countdown_expired
  apply_frame c status writeback s =
      if is_set status
      then clear_display s
      else if writeback && not (countdown_expired s)
      then some s
      else elim (commit_frame kernel c false none none s) [
        | none ↦ none
        | some done ↦ settle writeback done
      ]

  unfoldable pub apply_frame_composition : Composition → Compositor K → Option (ℤ × Compositor K)
  unfolding apply_frame
  apply_frame_composition c s =
      let applied : Compositor K → Composition → Option (ℤ × Compositor K) = λ s1 c1.
        elim (apply_frame c1 (pos 0) false s1) [ none ↦ none | some s2 ↦ some (pos 0, s2) ] in
      if not c.geometry_changed
      then applied s c
      else elim (commit_frame kernel c true none none s) [
        | none ↦ none
        | some (ret, s1, c1) ↦ if is_set ret then some (ret, s1) else applied s1 c1
      ]

  unfoldable pub apply_dpms_composition : Composition → Compositor K → ℤ × Compositor K
  unfolding apply_dpms
  apply_dpms_composition c s = apply_dpms kernel c (record s { is_active = c.dpms_mode == dpms_on })

  -- A blob that no commit has used yet goes before the new one is made.
  unfoldable pub apply_modeset_composition : Composition → Compositor K → ℤ × Compositor K
  unfolding destroy_property_blob create_mode_blob
  apply_modeset_composition c s =
      let cleared = destroy_property_blob kernel s.mode.blob_id s.kernel_state in
      let made = create_mode_blob kernel c.display_mode cleared.1 in
      let held = record s {
        mode = record {
          needs_modeset = s.mode.needs_modeset;
          mode = c.display_mode;
          blob_id = made.1;
          old_blob_id = s.mode.old_blob_id;
        };
        kernel_state = made.2;
      } in
      if is_set made.0 then (made.0, held) else (
        pos 0,
        record held {
          mode = record {
            needs_modeset = true;
            mode = c.display_mode;
            blob_id = made.1;
            old_blob_id = s.mode.old_blob_id;
          };
        },
      )

  unfoldable pub dispatch : CompositionType → Composition → Compositor K → Option (ℤ × Compositor K)
  unfolding apply_frame_composition apply_dpms_composition apply_modeset_composition
  dispatch empty c s = some (einval, s)
  dispatch frame c s = apply_frame_composition c s
  dispatch dpms c s = some (apply_dpms_composition c s)
  dispatch modeset c s = some (apply_modeset_composition c s)

  unfoldable pub apply_composition : Composition → Compositor K → Option (ℤ × Compositor K)
  unfolding dispatch
  apply_composition c s = dispatch c.kind c s

  unfoldable pub test_composition :
      Composition → Compositor K → Option (ℤ × Compositor K × Composition)
  unfolding commit_frame
  test_composition c s = commit_frame kernel c true none none s
