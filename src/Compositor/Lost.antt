-- ===== src/Compositor/Lost.antt =====
-- A frame whose request cannot be built while a mode is waiting to be set.
use drm_hwcomposer.Base.{ℕ, ◌≡◌, sym, refl, sym, true, false, some, List, ℤ, pos, arith, is_set}
use drm_hwcomposer.Resources.{Crtc}
use drm_hwcomposer.Connector.{Connector}
use drm_hwcomposer.Composition.{Composition}
use drm_hwcomposer.Kernel.{Kernel, Request}
use drm_hwcomposer.Compositor.State.{Compositor, destroy_property_blob, apply_dpms}
use drm_hwcomposer.Compositor.Frame.{commit_request, finish_modeset, after_commit}

module _ {K : Type 0} (kernel : Kernel K) where
  finish_modeset-done :
      (c : Composition) (conn : Connector) (s : Compositor K)
      → is_set (destroy_property_blob kernel s.mode.old_blob_id s.kernel_state).0 ≡ false
      → is_set
          (apply_dpms kernel c (record s {
            kernel_state = (destroy_property_blob kernel s.mode.old_blob_id s.kernel_state).1;
          })).0
        ≡ false
      → let done = finish_modeset kernel c conn s in
        (done.0 ≡ pos 0)
        × (done.1.mode.needs_modeset ≡ false)
        × (done.1.connector ≡ some (record conn { active_mode = done.1.mode.mode }))
  unfolding finish_modeset
  finish_modeset-done c conn s blob power = rw (blob, power, finish_modeset) (refl, refl, refl)

  finish_modeset-any :
      (other : K → List Request → ℕ → ℤ × K) (c : Composition) (conn : Connector) (s : Compositor K)
      → finish_modeset (record kernel { commit = other }) c conn s ≡ finish_modeset kernel c conn s
  unfolding finish_modeset
  finish_modeset-any other c conn s = refl

  after_commit-done :
      (c : Composition) (crtc : Crtc) (conn : Connector) (ret : ℤ) (s : Compositor K)
      → s.mode.needs_modeset ≡ true
      → is_set (destroy_property_blob kernel s.mode.old_blob_id s.kernel_state).0 ≡ false
      → is_set
          (apply_dpms kernel c (record s {
            kernel_state = (destroy_property_blob kernel s.mode.old_blob_id s.kernel_state).1;
          })).0
        ≡ false
      → let done = after_commit kernel c false crtc conn ret s in
        (done.0 ≡ pos 0)
        × (done.1.mode.needs_modeset ≡ false)
        × (done.1.connector ≡ some (record conn { active_mode = done.1.mode.mode }))
  unfolding after_commit
  after_commit-done c crtc conn ret s k blob power =
      ground (arith, finish_modeset-done c conn s blob power)

  after_commit-any :
      (other : K → List Request → ℕ → ℤ × K) (c : Composition) (crtc : Crtc) (conn : Connector)
      (ret : ℤ) (s : Compositor K)
      → after_commit (record kernel { commit = other }) c false crtc conn ret s
        ≡ after_commit kernel c false crtc conn ret s
  unfolding after_commit finish_modeset
  after_commit-any other c crtc conn ret s = refl

  -- When the loop over the planes ended with an error (`ret` is set) and a mode is waiting to be
  -- set, the old mode's blob can be destroyed and the power mode be applied: CommitFrame then
  -- returns success and takes the mode for active and set, though it committed nothing. That it did
  -- not is stated by comparison with any other way in which the kernel might treat a commit: the
  -- result is the same.
  pub commit_request-lost :
      (other : K → List Request → ℕ → ℤ × K) (c : Composition) (crtc : Crtc) (conn : Connector)
      (ret : ℤ) (pset : List Request) (s : Compositor K)
      → is_set ret ≡ true
      → s.mode.needs_modeset ≡ true
      → is_set (destroy_property_blob kernel s.mode.old_blob_id s.kernel_state).0 ≡ false
      → is_set
          (apply_dpms kernel c (record s {
            kernel_state = (destroy_property_blob kernel s.mode.old_blob_id s.kernel_state).1;
          })).0
        ≡ false
      → let done = commit_request kernel c false crtc conn ret pset s in
        (done.0 ≡ pos 0)
        × (done.1.mode.needs_modeset ≡ false)
        × (done.1.connector ≡ some (record conn { active_mode = done.1.mode.mode }))
        × (done ≡ commit_request (record kernel { commit = other }) c false crtc conn ret pset s)
  unfolding commit_request
  commit_request-lost other c crtc conn ret pset s h k blob power =
      let done = after_commit-done c crtc conn ret s k blob power in
      let same = after_commit-any other c crtc conn ret s in
      rw (h, commit_request) (done.0, done.1, done.2, sym same)
