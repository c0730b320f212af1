-- ===== src/Compositor/Stale.antt =====
-- The mode's blobs when the power mode cannot be set behind a commit.
use drm_hwcomposer.Base.{
  sym, ap, ◌∙◌, Option-cases, inl, inr, ℕ, ◌≡◌, refl, true, false, arith, is_set, ◌≢◌,
}
use drm_hwcomposer.Connector.{Connector}
use drm_hwcomposer.Composition.{Composition}
use drm_hwcomposer.Kernel.{Kernel}
use drm_hwcomposer.Compositor.State.{ModeState, Compositor, destroy_property_blob, apply_dpms}
use drm_hwcomposer.Compositor.Frame.{finish_modeset}

module _ {K : Type 0} (kernel : Kernel K) where
  apply_dpms-mode : (c : Composition) (s : Compositor K) → (apply_dpms kernel c s).1.mode ≡ s.mode
  unfolding apply_dpms
  apply_dpms-mode c s = elim (Option-cases s.connector) [
    | inl e ↦ rw (e, apply_dpms)
    | inr (conn, e) ↦ rw (e, apply_dpms)
  ]

  finish_modeset-undone :
      (c : Composition) (conn : Connector) (s : Compositor K)
      → is_set (destroy_property_blob kernel s.mode.old_blob_id s.kernel_state).0 ≡ false
      → is_set
          (apply_dpms kernel c (record s {
            kernel_state = (destroy_property_blob kernel s.mode.old_blob_id s.kernel_state).1;
          })).0
        ≡ true
      → (is_set (finish_modeset kernel c conn s).0 ≡ true)
        × ((finish_modeset kernel c conn s).1.mode ≡ s.mode)
  unfolding finish_modeset
  finish_modeset-undone c conn s blob power =
      rw (blob, power, finish_modeset)
        (
          power,
          apply_dpms-mode c (record s {
            kernel_state = (destroy_property_blob kernel s.mode.old_blob_id s.kernel_state).1;
          }),
        )

  destroy_property_blob-set :
      (blob_id : ℕ) (k : K)
      → blob_id ≢ 0
      → destroy_property_blob kernel blob_id k ≡ kernel.destroy_blob k blob_id
  unfolding destroy_property_blob
  destroy_property_blob-set blob_id k h = ground arith

  finish_modeset-blocked :
      (c : Composition) (conn : Connector) (s : Compositor K)
      → s.mode.old_blob_id ≢ 0
      → is_set (kernel.destroy_blob s.kernel_state s.mode.old_blob_id).0 ≡ true
      → ((finish_modeset kernel c conn s).0
          ≡ (kernel.destroy_blob s.kernel_state s.mode.old_blob_id).0)
        × ((finish_modeset kernel c conn s).1.mode ≡ s.mode)
  unfolding finish_modeset
  finish_modeset-blocked c conn s h failed =
      rw (destroy_property_blob-set s.mode.old_blob_id s.kernel_state h, finish_modeset)
        (rw (failed, finish_modeset) (refl, refl))

  -- When behind a commit the old mode's blob was destroyed and the power mode could not be set,
  -- CommitFrame fails and keeps the number of the destroyed blob. The next time that it comes so
  -- far with that mode state, and the kernel refuses to destroy the blob once more, it fails with
  -- the kernel's error, and keeps the mode state as it is: the mode change is never finished.
  pub finish_modeset-stale :
      (c c' : Composition) (conn conn' : Connector) (s s' : Compositor K)
      → s.mode.old_blob_id ≢ 0
      → is_set (destroy_property_blob kernel s.mode.old_blob_id s.kernel_state).0 ≡ false
      → is_set
          (apply_dpms kernel c (record s {
            kernel_state = (destroy_property_blob kernel s.mode.old_blob_id s.kernel_state).1;
          })).0
        ≡ true
      → s'.mode ≡ (finish_modeset kernel c conn s).1.mode
      → is_set (kernel.destroy_blob s'.kernel_state s'.mode.old_blob_id).0 ≡ true
      → let again = finish_modeset kernel c' conn' s' in
        (is_set (finish_modeset kernel c conn s).0 ≡ true)
        × (again.0 ≡ (kernel.destroy_blob s'.kernel_state s'.mode.old_blob_id).0)
        × (again.1.mode ≡ s.mode)
  finish_modeset-stale c c' conn conn' s s' some_blob blob power same gone =
      let first = finish_modeset-undone c conn s blob power in
      let kept : s'.mode ≡ s.mode = same ∙ first.1 in
      let again =
        finish_modeset-blocked c' conn' s'
          (λ e. some_blob (sym (ap (λ (m : ModeState). m.old_blob_id) kept) ∙ e)) gone in
      (first.0, again.0, again.1 ∙ kept)
