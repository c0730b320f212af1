-- ===== src/Compositor/State.antt =====
-- The state of DrmDisplayCompositor, and the calls about mode blobs and the power mode.
use drm_hwcomposer.Base.{
  ℕ, Bool, true, false, Option, none, some, ℤ, pos, negsuc, enodev, if◌then◌else◌, ◌==◌, is_set,
}
use drm_hwcomposer.Resources.{Crtc}
use drm_hwcomposer.Mode.{Mode, to_info, default_mode}
use drm_hwcomposer.Connector.{Connector}
use drm_hwcomposer.Composition.{Composition}
use drm_hwcomposer.Kernel.{Kernel}

pub record ModeState : Type 0 where
  pub needs_modeset : Bool
  pub mode : Mode
  pub blob_id : ℕ
  pub old_blob_id : ℕ

-- The connector and the CRTC are what the device finds for the display; the connector object is
-- shared with the HwcDisplay, which reads its active mode. `vsync_enabled` is the vsync worker's.
pub record Compositor (K : Type 0) : Type 0 where
  pub connector : Option Connector
  pub crtc : Option Crtc
  pub active_composition : Option Composition
  pub is_active : Bool
  pub mode : ModeState
  pub frames_composited : ℕ
  pub vsync_enabled : Bool
  pub flatten_countdown : ℤ
  pub kernel_state : K

abbrev pub flatten_countdown_init : ℤ
flatten_countdown_init = pos 60

-- The constructor, on a device that knows the display's connector and CRTC.
unfoldable pub create : {K : Type 0} → Option Connector → Option Crtc → K → Compositor K
create connector crtc k = record {
  connector = connector;
  crtc = crtc;
  active_composition = none;
  is_active = false;
  mode = record { needs_modeset = false; mode = default_mode; blob_id = 0; old_blob_id = 0 };
  frames_composited = 0;
  vsync_enabled = false;
  flatten_countdown = flatten_countdown_init;
  kernel_state = k;
}

unfoldable pub countdown_expired : {K : Type 0} → Compositor K → Bool
countdown_expired s = elim s.flatten_countdown [ pos n ↦ n == 0 | negsuc n ↦ true ]

module _ {K : Type 0} (kernel : Kernel K) where
  -- DrmDevice::DestroyPropertyBlob.
  unfoldable pub destroy_property_blob : ℕ → K → ℤ × K
  destroy_property_blob blob_id k =
      if blob_id == 0 then (pos 0, k) else kernel.destroy_blob k blob_id

  -- DrmDevice::CreatePropertyBlob and CreateModeBlob.
  unfoldable pub create_mode_blob : Mode → K → ℤ × ℕ × K
  create_mode_blob mode k =
      let made = kernel.create_blob k (to_info mode) in
      if is_set made.0 then (made.0, 0, made.2) else made

  unfoldable pub apply_dpms : Composition → Compositor K → ℤ × Compositor K
  apply_dpms c s = elim s.connector [
    | none ↦ (enodev, s)
    | some conn ↦
        let done = kernel.set_property s.kernel_state conn.id conn.dpms_property c.dpms_mode in
        (done.0, record s { kernel_state = done.1 })
  ]

-- GetActiveModeResolution.
unfoldable pub get_active_mode_resolution : {K : Type 0} → Compositor K → ℕ × ℕ × ℤ
get_active_mode_resolution s = elim s.connector [
  | none ↦ (0, 0, enodev)
  | some conn ↦ let mode : Mode = conn.active_mode in (mode.h_display, mode.v_display, pos 0)
]
