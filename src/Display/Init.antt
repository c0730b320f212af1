-- ===== src/Display/Init.antt =====
-- HwcDisplay::Init on a display that was just created: its planes, its modes and the first mode.
use drm_hwcomposer.Base.{
  ◌≡◌, refl, pos, [], ℕ, Bool, Option, none, some, List, [], ◌∷◌, ℤ, if◌then◌else◌, is_set,
}
use drm_hwcomposer.Resources.{Plane, Crtc}
use drm_hwcomposer.Connector.{update_modes, new_modes, Connector, RawConnector}
use drm_hwcomposer.Kernel.{Kernel}
use drm_hwcomposer.Display.Layer.{Error, no_error, bad_display, no_resources}
use drm_hwcomposer.Display.State.{Display}
use drm_hwcomposer.Display.Query.{count_display_configs, list_display_configs}
use drm_hwcomposer.Display.Switch.{split_planes, set_active_config}

-- What the system says to Init: the results of the compositor's and the vsync worker's Init, the
-- property that allows overlay planes, the device's `mode_id_`, and drmModeGetConnector's report.
pub record Start : Type 0 where
  pub compositor_ret : ℤ
  pub vsync_ret : ℤ
  pub use_overlay_planes : Bool
  pub mode_id : ℕ
  pub report : Option RawConnector

module _ {K : Type 0} (kernel : Kernel K) where
  -- From the first mode on: the vsync worker is started, and the mode is set.
  unfoldable pub init_mode : Start → List ℕ → Display K → Option (Error × Display K)
  init_mode start [] d = some (no_error, d)
  init_mode start (config ∷ rest) d =
      if is_set start.vsync_ret then some (bad_display, d) else set_active_config kernel config d

  unfoldable pub init_modes : Start → Connector → Display K → Option (Error × Display K)
  unfolding init_mode count_display_configs list_display_configs
  init_modes start conn d =
      let (e, num, mode_id, conn') = count_display_configs start.report start.mode_id conn in
      let read = record d { compositor = record d.compositor { connector = some conn' } } in
      elim e [
        | no_error ↦ init_mode start (list_display_configs 1 conn').2 read
        | other ↦ some (other, read)
      ]

  -- The CRTC and the connector are those that the device finds for the display.
  unfoldable pub init_display :
      Start → List Plane → Option Crtc → Display K → Option (Error × Display K)
  unfolding split_planes init_modes
  init_display start planes crtc d =
      let split = split_planes start.use_overlay_planes planes in
      let d1 = record d { primary_planes = split.0; overlay_planes = split.1; crtc = crtc } in
      if is_set start.compositor_ret then some (no_resources, d) else elim crtc [
        | none ↦ some (bad_display, d1)
        | some c ↦ elim d.compositor.connector [
          | none ↦ some (bad_display, d1)
          | some conn ↦ init_modes start conn d1
        ]
      ]

  -- For a display whose connector reports no mode, Init returns success without setting a mode: the
  -- compositor's mode is as it was.
  pub init_display-modeless :
      (start : Start) (planes : List Plane) (c : Crtc) (conn : Connector) (raw : RawConnector)
      (d : Display K)
      → start.compositor_ret ≡ pos 0
      → d.compositor.connector ≡ some conn
      → start.report ≡ some raw
      → raw.modes ≡ []
      → (d' : Display K) × (init_display start planes (some c) d ≡ some (no_error, d'))
        × (d'.compositor.mode ≡ d.compositor.mode)
  unfolding init_display count_display_configs list_display_configs update_modes new_modes
  init_display-modeless start planes c conn raw d r e report empty =
      let split = split_planes start.use_overlay_planes planes in
      (
        record d {
          primary_planes = split.0;
          overlay_planes = split.1;
          crtc = some c;
          compositor = record d.compositor {
            connector = some (record conn { state = raw.connection; modes = [] });
          };
        },
        rw (r, init_display)
            (rw (e, init_display) (rw (report, count_display_configs) (rw (empty, new_modes)))),
        refl,
      )
