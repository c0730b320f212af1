-- ===== src/Hwc/State.antt =====
-- The device (drmhwctwo.h): its displays and callbacks, and what a call on it comes to.
use drm_hwcomposer.Base.{ℕ, false, Option, none, some, List, [], ◌∷◌, pos, neg, if◌then◌else◌, ◌==◌}
use drm_hwcomposer.Planner.{Stage}
use drm_hwcomposer.Compositor.State.{create}
use drm_hwcomposer.Vsync.{new_worker}
use drm_hwcomposer.Display.Layer.{HwcLayer, new_hwc_layer}
use drm_hwcomposer.Display.State.{change_layer}
use drm_hwcomposer.Device.State.{Device, get_crtc_for_display, get_connector_for_display}
use drm_hwcomposer.Hwc.Calls.{HwcDisplay}

-- HWC2::Callback; a callback's data and function are numbers.
pub data Callback : Type 0 where
  hotplug refresh vsync : Callback
  other_callback : ℕ → Callback

pub record HwcCallback : Type 0 where
  pub callback : Callback
  pub user_data : ℕ
  pub function : ℕ

pub record Hwc (K : Type 0) : Type 0 where
  pub displays : List (ℕ × HwcDisplay K)
  pub callbacks : List HwcCallback

-- HWC_DISPLAY_PRIMARY.
abbrev pub primary : ℕ
primary = 0

-- `static_cast<int32_t>(HWC2::Connection::Connected)`.
abbrev pub connection_connected : ℕ
connection_connected = 1

-- What a call comes to: it returns, an exception leaves it (`at` on a map that lacks the key), or it
-- reads through a null pointer.
pub data Outcome (A : Type 0) : Type 0 where
  returns : A → Outcome A
  throws : Outcome A
  faults : Outcome A

unfoldable pub find_display : {K : Type 0} → ℕ → List (ℕ × HwcDisplay K) → Option (HwcDisplay K)
find_display h [] = none
find_display h ((k, d) ∷ rest) = let more = find_display h rest in if h == k then some d else more

unfoldable pub put_display :
    {K : Type 0} → ℕ → HwcDisplay K → List (ℕ × HwcDisplay K) → List (ℕ × HwcDisplay K)
put_display h d [] = []
put_display h d ((k, e) ∷ rest) =
    let more = put_display h d rest in if h == k then (k, d) ∷ rest else (k, e) ∷ more

-- A change of one layer of a display, through the reference that `get_layer` gives.
abbrev pub with_layer : {K : Type 0} → ℕ → (HwcLayer → HwcLayer) → HwcDisplay K → HwcDisplay K
with_layer layer f h =
    let d = h.display in record h { display = record d { layers = change_layer layer f d.layers } }

-- The constructors of the primary HwcDisplay, on its device, and of what it holds, with the planner
-- that its Init makes.
unfoldable pub new_display : {K : Type 0} → Device → List Stage → ℕ → K → HwcDisplay K
unfolding create get_crtc_for_display get_connector_for_display
new_display drm planner kind k = record {
  display = record {
    compositor =
        create (get_connector_for_display drm (pos primary))
          (get_crtc_for_display drm (pos primary)) k;
    crtc = none;
    planner = planner;
    primary_planes = [];
    overlay_planes = [];
    layer_idx = 0;
    layers = [];
    client_layer = new_hwc_layer;
    retire_fence = neg 1;
    next_retire_fence = neg 1;
    color_mode = pos 0;
    frame_no = 0;
  };
  vsync_worker = new_worker;
  kind = kind;
  mode_id = drm.mode_id;
  min_resolution = drm.min_resolution;
  max_resolution = drm.max_resolution;
  has_connector = false;
}

-- HWC2::DisplayType::Physical.
abbrev pub physical : ℕ
physical = 1
