-- ===== src/Hwc/Start.antt =====
-- HookDevOpen and DrmHwcTwo::Init (drmhwctwo.cpp).
use drm_hwcomposer.Base.{
  ℕ, Bool, true, false, not, Option, none, some, List, [], ◌∷◌, ℤ, pos, einval, if◌then◌else◌,
  is_set, select,
}
use drm_hwcomposer.Resources.{Crtc, get_crtc_supported}
use drm_hwcomposer.Connector.{Connector, RawConnector}
use drm_hwcomposer.Layer.{Importer}
use drm_hwcomposer.Planner.{Stage}
use drm_hwcomposer.Kernel.{Kernel}
use drm_hwcomposer.Device.State.{Device, get_crtc_for_display}
use drm_hwcomposer.Manager.{DevicePath, init_manager, get_drm_device, get_importer}
use drm_hwcomposer.Vsync.{new_worker}
use drm_hwcomposer.Compositor.Start.{Started, init_compositor}
use drm_hwcomposer.Display.Layer.{Error, no_error, no_resources, bad_display}
use drm_hwcomposer.Display.Query.{count_display_configs}
use drm_hwcomposer.Display.Init.{Start, init_display}
use drm_hwcomposer.Hwc.Calls.{HwcDisplay}
use drm_hwcomposer.Hwc.State.{Hwc, Outcome, faults, new_display, physical, primary, returns, throws}

-- What the start finds: the devices of the path that is set, the result of hw_get_module, the results
-- of pthread_mutex_init and of the vsync worker's Init, the property that allows overlay planes, and
-- drmModeGetConnector's report of the display's connector. `planner` is what the platform's
-- Planner::CreateInstance makes, and `flatten_callback` the compositor's vsync callback.
pub record Found : Type 0 where
  pub path : DevicePath
  pub gralloc : ℤ
  pub lock_ret : ℤ
  pub vsync_ret : ℤ
  pub use_overlay_planes : Bool
  pub report : Option RawConnector
  pub planner : List Stage
  pub flatten_callback : ℕ

abbrev not_started : Started
not_started = record { planner = []; vsync_worker = new_worker; initialized = false }

-- The Init of the compositor, over the device that the resource manager has for the display.
unfoldable pub start_compositor : Found → List (Device × Importer) → ℤ
unfolding init_compositor get_drm_device
start_compositor found drms =
    (init_compositor (get_drm_device drms (pos primary)) found.lock_ret (λ d. found.planner)
      found.flatten_callback not_started).0

-- What the display's Init is told.
abbrev pub start_of : Found → List (Device × Importer) → Device → Start
start_of found drms drm = record {
  compositor_ret = start_compositor found drms;
  vsync_ret = found.vsync_ret;
  use_overlay_planes = found.use_overlay_planes;
  mode_id = drm.mode_id;
  report = found.report;
}

-- The connector that the display's Init sets, if it comes so far, and the device's `mode_id_` when it
-- has read the connector's modes.
abbrev pub reached_connector : {K : Type 0} → Start → HwcDisplay K → Option Connector
reached_connector start h =
    if is_set start.compositor_ret then none else h.display.compositor.connector

abbrev pub mode_id_left : Start → Option Connector → ℕ
mode_id_left start none = start.mode_id
mode_id_left start (some conn) = (count_display_configs start.report start.mode_id conn).2

abbrev is_some : {A : Type 0} → Option A → Bool
is_some none = false
is_some (some x) = true

module _ {K : Type 0} (kernel : Kernel K) where
  -- The end of Init: the display's own Init, whose error is not looked at.
  unfoldable pub start_display : Start → Device → Crtc → HwcDisplay K → Option (HwcDisplay K)
  unfolding init_display
  start_display start drm crtc h =
      let reached = reached_connector start h in
      elim (init_display kernel start (select (get_crtc_supported crtc) drm.planes) (some crtc)
        h.display) [
          | none ↦ none
          | some (e, d) ↦ some (record h {
            display = d;
            mode_id = mode_id_left start reached;
            has_connector = is_some reached;
          })
        ]

  -- DrmHwcTwo::Init behind the Init of the resource manager, on a device that was just created.
  unfoldable pub init_primary : Found → List (Device × Importer) → K → Outcome (Error × Hwc K)
  unfolding start_compositor start_display new_display get_crtc_for_display get_drm_device
      get_importer
  init_primary found drms k =
      let empty : Hwc K = record { displays = []; callbacks = [] } in
      elim (get_drm_device drms (pos primary)) [
        | none ↦ returns (no_resources, empty)
        | some drm ↦ elim (get_importer drms (pos primary)) [
          | none ↦ returns (no_resources, empty)
          | some importer ↦
              let h = new_display drm found.planner physical k in
              let holds : HwcDisplay K → Hwc K =
                λ d. record { displays = (primary, d) ∷ []; callbacks = [] } in
              elim (get_crtc_for_display drm (pos primary)) [
                | none ↦ returns (bad_display, holds h)
                | some c ↦ elim (start_display (start_of found drms drm) drm c h) [
                  | none ↦ faults
                  | some h' ↦ returns (no_error, holds h')
                ]
              ]
        ]
      ]

  -- DrmHwcTwo::Init.
  unfoldable pub init : Found → K → Outcome (Error × Hwc K)
  unfolding init_manager init_primary
  init found k = elim (init_manager found.path found.gralloc) [
    | none ↦ faults
    | some (ret, m) ↦
        if is_set ret
        then returns (no_resources, record { displays = []; callbacks = [] })
        else init_primary found m.drms k
  ]

  -- HookDevOpen, for a name that is the module's or not: the device where it succeeds.
  unfoldable pub hook_dev_open : Bool → Found → K → Outcome (ℤ × Option (Hwc K))
  unfolding init
  hook_dev_open is_composer found k =
      if not is_composer then returns (einval, none) else elim (init found k) [
        | returns (no_error, s) ↦ returns (pos 0, some s)
        | returns (e, s) ↦ returns (einval, none)
        | throws ↦ throws
        | faults ↦ faults
      ]
