-- ===== src/Display/Calls.antt =====
-- The handles of a display's layers and its planes, under PresentDisplay, ValidateDisplay, SetActiveConfig and
-- SetPowerMode (drmhwctwo.cpp).
use drm_hwcomposer.Base.{
  ℕ, ◌+◌, ◌∙◌, Option, none, some, ℤ, holds-if, holds-option, holds-known, true, false, is_set,
  length,
}
use drm_hwcomposer.Mode.{Mode}
use drm_hwcomposer.Kernel.{Kernel}
use drm_hwcomposer.Composition.{set_display_mode, set_dpms_mode, dpms_on, dpms_off}
use drm_hwcomposer.Compositor.Apply.{apply_composition}
use drm_hwcomposer.Display.Layer.{Error, no_error, bad_layer, invalid, set_validated_type}
use drm_hwcomposer.Display.State.{Display, each_layer}
use drm_hwcomposer.Display.Query.{find_mode}
use drm_hwcomposer.Display.Compose.{Platform, create_composition, settle_present, present_display}
use drm_hwcomposer.Display.Validate.{is_failure, validate_display}
use drm_hwcomposer.Display.Switch.{
  PowerMode, off, on, doze, doze_suspend, fresh_composition, switch_to, set_dpms, set_active_config,
  set_power_mode,
}
use drm_hwcomposer.Display.Kept.{
  each_layer-handles, assign_types-handles, Same, Keeps, create_composition-Keeps,
}

module _ {K : Type 0} (kernel : Kernel K) (d0 : Display K) where
  switch_to-Keeps : (mode : Mode) (d : Display K) → Same d0 d → Keeps d0 (switch_to kernel mode d)
  unfolding switch_to
  switch_to-Keeps mode d h =
      let c = (set_display_mode mode (fresh_composition kernel d)).1 in
      holds-option (Keeps d0) (apply_composition kernel c d.compositor) _ tt
        (λ r. holds-if (Keeps d0) (is_set r.0) h h)

  pub set_active_config-Keeps :
      (config : ℕ) (d : Display K) → Same d0 d → Keeps d0 (set_active_config kernel config d)
  unfolding set_active_config
  set_active_config-Keeps config d h = holds-option (Keeps d0) d.compositor.connector _ tt (λ conn.
      holds-option (Keeps d0) (find_mode config conn) _ h (λ mode. switch_to-Keeps mode d h))

  set_dpms-Keeps : (value : ℕ) (d : Display K) → Same d0 d → Keeps d0 (set_dpms kernel value d)
  unfolding set_dpms
  set_dpms-Keeps value d h =
      let c = (set_dpms_mode value (fresh_composition kernel d)).1 in
      holds-option (Keeps d0) (apply_composition kernel c d.compositor) _ tt (λ r. h)

  pub set_power_mode-Keeps :
      (mode : PowerMode) (d : Display K) → Same d0 d → Keeps d0 (set_power_mode kernel mode d)
  unfolding set_power_mode
  set_power_mode-Keeps off d h = set_dpms-Keeps dpms_off d h
  set_power_mode-Keeps on d h = set_dpms-Keeps dpms_on d h
  set_power_mode-Keeps doze d h = h
  set_power_mode-Keeps doze_suspend d h = h

  module _ (platform : Platform) where
    settle_present-Same :
        (e : Error) (d : Display K) → Same d0 d → Same d0 (settle_present kernel platform e d).2
    unfolding settle_present
    settle_present-Same no_error d h = h
    settle_present-Same bad_layer d h = h
    settle_present-Same _ d h = h

    abbrev pub KeepsPresented : Option (Error × Option ℤ × Display K) → Type 0
    KeepsPresented none = Unit
    KeepsPresented (some (e, fence, d)) = Same d0 d

    abbrev pub KeepsValidated : Option (Error × ℕ × ℕ × Display K) → Type 0
    KeepsValidated none = Unit
    KeepsValidated (some (e, num_types, num_requests, d)) = Same d0 d

    pub present_display-Keeps :
        (d : Display K) → Same d0 d → KeepsPresented (present_display kernel platform d)
    unfolding present_display
    present_display-Keeps d h =
        holds-known (Keeps d0) KeepsPresented (create_composition kernel platform false d) _
          (create_composition-Keeps kernel platform d0 false d h) tt
          (λ r k. settle_present-Same r.0 r.1 k)

    pub validate_display-Keeps :
        (d : Display K) → Same d0 d → KeepsValidated (validate_display kernel platform d)
    unfolding validate_display
    validate_display-Keeps d h =
        let cleared = record d { layers = each_layer (set_validated_type invalid) d.layers } in
        let planes = length d.primary_planes + length d.overlay_planes in
        holds-known (Keeps d0) KeepsValidated (create_composition kernel platform true cleared) _
          (create_composition-Keeps kernel platform d0 true cleared
            ((each_layer-handles (set_validated_type invalid) d.layers ∙ h.0.0, h.0.1), h.1))
          tt
          (λ r k. ((assign_types-handles (is_failure r.0) planes r.1.layers ∙ k.0.0, k.0.1), k.1))
