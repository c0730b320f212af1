-- ===== src/Composition/Typing.antt =====
-- The type of a composition: a composition serves one purpose, which its first setter fixes.
use drm_hwcomposer.Base.{ℕ, ◌≡◌, ◌⊎◌, ◌≢◌, Bool, List, ℤ, pos, einval, arith}
use drm_hwcomposer.Mode.{Mode}
use drm_hwcomposer.Layer.{DrmLayer}
use drm_hwcomposer.Composition.{
  Composition, CompositionType, empty, frame, dpms, modeset, set_layers, set_dpms_mode,
  set_display_mode,
}

-- A call that sets up a composition.
pub data Setup : Type 0 where
  layers : List DrmLayer → Bool → Setup
  dpms_mode : ℕ → Setup
  display_mode : Mode → Setup

abbrev pub setup : Setup → Composition → ℤ × Composition
setup (layers ls changed) = set_layers ls changed
setup (dpms_mode m) = set_dpms_mode m
setup (display_mode m) = set_display_mode m

abbrev pub purpose : Setup → CompositionType
purpose (layers ls changed) = frame
purpose (dpms_mode m) = dpms
purpose (display_mode m) = modeset

-- Setting a composition up for a purpose succeeds exactly when the composition is still empty or has
-- that purpose already, and then it has that purpose. Otherwise the call returns -EINVAL, and leaves
-- the composition as it was.
pub setup_lem :
    (s : Setup) (c : Composition)
    → (((c.kind ≡ empty) ⊎ (c.kind ≡ purpose s))
        × ((setup s c).0 ≡ pos 0)
        × ((setup s c).1.kind ≡ purpose s))
      ⊎ ((c.kind ≢ empty) × (c.kind ≢ purpose s) × (setup s c ≡ (einval, c)))
unfolding set_layers set_dpms_mode set_display_mode
setup_lem (layers ls changed) c = ground arith
setup_lem (dpms_mode m) c = ground arith
setup_lem (display_mode m) c = ground arith
