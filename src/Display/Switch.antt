-- ===== src/Display/Switch.antt =====
-- HwcDisplay::SetActiveConfig and SetPowerMode, and the loop of Init over the planes.
use drm_hwcomposer.Base.{
  ℕ, ◌*◌, ◌^◌, Bool, Option, none, some, List, pos, if◌then◌else◌, ◌==◌, is_set, select, ◌&&◌,
}
use drm_hwcomposer.Resources.{Plane, plane_type_primary, plane_type_overlay}
use drm_hwcomposer.Mode.{Mode}
use drm_hwcomposer.Connector.{Connector}
use drm_hwcomposer.Layer.{Rect}
use drm_hwcomposer.Kernel.{Kernel}
use drm_hwcomposer.Composition.{
  Composition, new_composition, init, set_display_mode, set_dpms_mode, dpms_on, dpms_off,
}
use drm_hwcomposer.Compositor.Apply.{apply_composition}
use drm_hwcomposer.Display.Layer.{Error, no_error, bad_config, bad_parameter, unsupported}
use drm_hwcomposer.Display.State.{Display}
use drm_hwcomposer.Display.Query.{find_mode}

-- The planes of a display: primary ones, and overlay ones where the property allows their use.
unfoldable pub split_planes : Bool → List Plane → List Plane × List Plane
split_planes use_overlay_planes planes = (
  select (λ p. p.kind == plane_type_primary) planes,
  select (λ p. use_overlay_planes && p.kind == plane_type_overlay) planes,
)

abbrev pub mode_rect : ℕ → ℕ → ℕ → Rect
mode_rect scale w h = record {
  left = pos 0;
  top = pos 0;
  right = pos (w * scale);
  bottom = pos (h * scale);
}

-- `if (connector_->active_mode().id() == 0) connector_->set_active_mode(*mode);`
abbrev pub adopt_mode : Mode → Connector → Connector
adopt_mode mode conn = if conn.active_mode.id == 0 then record conn { active_mode = mode } else conn

abbrev pub on_connector : (Connector → Connector) → Option Connector → Option Connector
on_connector f none = none
on_connector f (some c) = some (f c)

module _ {K : Type 0} (kernel : Kernel K) where
  abbrev pub fresh_composition : Display K → Composition
  fresh_composition d = (init d.crtc d.planner d.frame_no new_composition).1

  -- The client layer takes the dimensions of the mode.
  unfoldable pub switch_to : Mode → Display K → Option (Error × Display K)
  switch_to mode d =
      elim (apply_composition kernel (set_display_mode mode (fresh_composition d)).1 d.compositor) [
        | none ↦ none
        | some (ret, s) ↦
            if is_set ret
            then some (bad_config, record d { compositor = s })
            else some (
              no_error,
              record d {
                compositor = record s { connector = on_connector (adopt_mode mode) s.connector };
                client_layer = record d.client_layer {
                  display_frame = mode_rect 1 mode.h_display mode.v_display;
                  source_crop = mode_rect (2 ^ 16) mode.h_display mode.v_display;
                };
              },
            )
      ]

  -- The connector of an initialised display is not null.
  unfoldable pub set_active_config : ℕ → Display K → Option (Error × Display K)
  unfolding find_mode switch_to
  set_active_config config d = elim d.compositor.connector [
    | none ↦ none
    | some conn ↦ elim (find_mode config conn) [
      | none ↦ some (bad_config, d)
      | some mode ↦ switch_to mode d
    ]
  ]

  unfoldable pub set_dpms : ℕ → Display K → Option (Error × Display K)
  set_dpms value d =
      elim (apply_composition kernel (set_dpms_mode value (fresh_composition d)).1 d.compositor) [
        | none ↦ none
        | some (ret, s) ↦
            some (if is_set ret then bad_parameter else no_error, record d { compositor = s })
      ]

-- HWC2::PowerMode.
pub data PowerMode : Type 0 where
  off on doze doze_suspend : PowerMode

unfoldable pub set_power_mode :
    {K : Type 0} → Kernel K → PowerMode → Display K → Option (Error × Display K)
unfolding set_dpms
set_power_mode kernel off d = set_dpms kernel dpms_off d
set_power_mode kernel on d = set_dpms kernel dpms_on d
set_power_mode kernel doze d = some (unsupported, d)
set_power_mode kernel doze_suspend d = some (unsupported, d)
