-- ===== src/Connector.antt =====
-- drmconnector.h and drmconnector.cpp: a connector, its modes and their ids.
pub mod Modes
use drm_hwcomposer.Base.{
  ℕ, ◌%◌, ◌^◌, ◌+◌, Bool, ◌||◌, Option, none, some, List, [], ◌∷◌, ℤ, pos, neg, enodev,
  if◌then◌else◌, ◌==◌, find?,
}
use drm_hwcomposer.Property.{ObjectProperties}
use drm_hwcomposer.Resources.{Result, ok, ◌>>=◌, required}
use drm_hwcomposer.Mode.{Mode, ModeInfo, default_mode, of_info, same_mode}

-- DRM_MODE_CONNECTED and DRM_MODE_DISCONNECTED.
abbrev pub connected : ℕ
connected = 1

abbrev pub disconnected : ℕ
disconnected = 2

-- The encoders are named by their ids. A property is its id, 0 where the connector lacks it.
pub record Connector : Type 0 where
  pub id : ℕ
  pub encoder : Option ℕ
  pub display : ℤ
  pub kind : ℕ
  pub state : ℕ
  pub mm_width : ℕ
  pub mm_height : ℕ
  pub possible_encoders : List ℕ
  pub dpms_property : ℕ
  pub crtc_id_property : ℕ
  pub writeback_fb_id : ℕ
  pub writeback_out_fence : ℕ
  pub modes : List Mode
  pub active_mode : Mode

-- `drmModeConnector`: what libdrm reports of a connector.
pub record RawConnector : Type 0 where
  pub connector_id : ℕ
  pub connector_type : ℕ
  pub connection : ℕ
  pub width : ℕ
  pub height : ℕ
  pub encoder_id : ℕ
  pub encoders : List ℕ
  pub modes : List ModeInfo

-- The constructor.
unfoldable pub create : RawConnector → Option ℕ → List ℕ → Connector
create c current_encoder possible_encoders = record {
  id = c.connector_id;
  encoder = current_encoder;
  display = neg 1;
  kind = c.connector_type;
  state = c.connection;
  mm_width = c.width;
  mm_height = c.height;
  possible_encoders = possible_encoders;
  dpms_property = 0;
  crtc_id_property = 0;
  writeback_fb_id = 0;
  writeback_out_fence = 0;
  modes = [];
  active_mode = default_mode;
}

-- The DRM_MODE_CONNECTOR_* numbers: LVDS 7, eDP 14, DSI 16 and VIRTUAL 15.
unfoldable pub internal : Connector → Bool
internal c = c.kind == 7 || c.kind == 14 || c.kind == 16 || c.kind == 15

-- HDMIA 11, DisplayPort 10, DVID 3, DVII 2 and VGA 1.
unfoldable pub external : Connector → Bool
external c = c.kind == 11 || c.kind == 10 || c.kind == 3 || c.kind == 2 || c.kind == 1

-- WRITEBACK 18, where the kernel's headers define it.
unfoldable pub writeback : Connector → Bool
writeback c = c.kind == 18

unfoldable pub valid_type : Connector → Bool
unfolding internal external writeback
valid_type c = internal c || external c || writeback c

init_writeback : ObjectProperties → Connector → Result Connector
unfolding required
init_writeback props c = do
  formats ← required props "WRITEBACK_PIXEL_FORMATS"
  fb_id ← required props "WRITEBACK_FB_ID"
  out_fence ← required props "WRITEBACK_OUT_FENCE_PTR"
  ok (record c { writeback_fb_id = fb_id.id; writeback_out_fence = out_fence.id })

-- DrmConnector::Init.
unfoldable pub init : ObjectProperties → Connector → Result Connector
unfolding required writeback init_writeback
init props c = do
  dpms ← required props "DPMS"
  crtc_id ← required props "CRTC_ID"
  let found = record c { dpms_property = dpms.id; crtc_id_property = crtc_id.id }
  if writeback c then init_writeback props found else ok found

-- DrmDevice::next_mode_id: `++mode_id_` on a uint32_t.
abbrev pub next_mode_id : ℕ → ℕ
next_mode_id mode_id = (mode_id + 1) % 2 ^ 32

-- The inner loop of UpdateModes: the first known mode that equals the kernel's one.
unfoldable pub known_mode : List Mode → ModeInfo → Option Mode
known_mode modes m = find? (λ mode. same_mode mode m) modes

-- The outer loop, with the device's `mode_id_`.
unfoldable pub new_modes : List Mode → ℕ → List ModeInfo → ℕ × List Mode
unfolding known_mode
new_modes modes mode_id [] = (mode_id, [])
new_modes modes mode_id (m ∷ ms) = elim (known_mode modes m) [
  | some mode ↦ let rest = new_modes modes mode_id ms in (rest.0, mode ∷ rest.1)
  | none ↦
      let id = next_mode_id mode_id in
      let rest = new_modes modes id ms in (rest.0, record (of_info m) { id = id } ∷ rest.1)
]

-- DrmConnector::UpdateModes, from what drmModeGetConnector returns (NULL is `none`); the result is
-- the error, the device's `mode_id_` and the connector.
unfoldable pub update_modes : Option RawConnector → ℕ → Connector → ℤ × ℕ × Connector
unfolding new_modes
update_modes none mode_id conn = (enodev, mode_id, conn)
update_modes (some c) mode_id conn =
    let found = new_modes conn.modes mode_id c.modes in
    (pos 0, found.0, record conn { state = c.connection; modes = found.1 })
