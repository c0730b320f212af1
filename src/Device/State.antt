-- ===== src/Device/State.antt =====
-- The objects of a DrmDevice. A pointer to a CRTC, an encoder or a connector is the object's id, by
-- which the device's vectors are searched: an object that several others point to stands in its
-- vector alone, and a change of it is seen through every pointer.
use drm_hwcomposer.Base.{
  ℕ, Bool, true, false, Option, some, List, [], ◌∷◌, ℤ, if◌then◌else◌, ◌==◌, ◌==ℤ◌, find?, none,
  is_set, pos,
}
use drm_hwcomposer.Resources.{Plane, Crtc}
use drm_hwcomposer.Connector.{Connector}

pub record Encoder : Type 0 where
  pub id : ℕ
  pub crtc : Option ℕ
  pub display : ℤ
  pub possible_crtcs : List ℕ
  pub possible_clones : List ℕ

pub record Device : Type 0 where
  pub crtcs : List Crtc
  pub encoders : List Encoder
  pub connectors : List Connector
  pub writeback_connectors : List Connector
  pub planes : List Plane
  pub mode_id : ℕ
  pub min_resolution : ℕ × ℕ
  pub max_resolution : ℕ × ℕ
  pub displays : List ℤ

abbrev pub no_device : Device
no_device = record {
  crtcs = [];
  encoders = [];
  connectors = [];
  writeback_connectors = [];
  planes = [];
  mode_id = 0;
  min_resolution = (0, 0);
  max_resolution = (0, 0);
  displays = [];
}

abbrev pub mem_id : ℕ → List ℕ → Bool
mem_id x [] = false
mem_id x (y ∷ ys) = let rest = mem_id x ys in if x == y then true else rest

abbrev pub mem_display : ℤ → List ℤ → Bool
mem_display x [] = false
mem_display x (y ∷ ys) = let rest = mem_display x ys in if x ==ℤ y then true else rest

-- DrmEncoder::CanClone.
unfoldable pub can_clone : Encoder → ℕ → Bool
can_clone e possible_clone = mem_id possible_clone e.possible_clones

unfoldable pub get_crtc : ℕ → List Crtc → Option Crtc
get_crtc id = find? (λ c. c.id == id)

unfoldable pub get_encoder : ℕ → List Encoder → Option Encoder
get_encoder id = find? (λ e. e.id == id)

unfoldable pub handles_display : Device → ℤ → Bool
handles_display d display = mem_display display d.displays

abbrev pub conn_on : ℤ → Connector → Bool
conn_on display c = c.display ==ℤ display

abbrev pub crtc_on : ℤ → Crtc → Bool
crtc_on display c = c.display ==ℤ display

unfoldable pub get_connector_for_display : Device → ℤ → Option Connector
get_connector_for_display d display = find? (conn_on display) d.connectors

unfoldable pub get_writeback_connector_for_display : Device → ℤ → Option Connector
get_writeback_connector_for_display d display = find? (conn_on display) d.writeback_connectors

unfoldable pub get_crtc_for_display : Device → ℤ → Option Crtc
get_crtc_for_display d display = find? (crtc_on display) d.crtcs

unfoldable pub get_plane : Device → ℕ → Option Plane
get_plane d id = find? (λ p. p.id == id) d.planes

-- `crtc->set_display(display)`, through a pointer to the CRTC.
unfoldable pub set_crtc_display : ℕ → ℤ → List Crtc → List Crtc
set_crtc_display id display [] = []
set_crtc_display id display (c ∷ cs) =
    let rest = set_crtc_display id display cs in
    if c.id == id then record c { display = display } ∷ cs else c ∷ rest

-- DrmEncoder::set_crtc, which takes the display over from the CRTC.
unfoldable pub set_encoder_crtc : ℕ → ℕ → ℤ → List Encoder → List Encoder
set_encoder_crtc id crtc display [] = []
set_encoder_crtc id crtc display (e ∷ es) =
    let rest = set_encoder_crtc id crtc display es in
    if e.id == id then record e { crtc = some crtc; display = display } ∷ es else e ∷ rest

-- A change of one connector through a pointer to it.
unfoldable pub change_connector : ℕ → (Connector → Connector) → List Connector → List Connector
change_connector id f [] = []
change_connector id f (c ∷ cs) =
    let rest = change_connector id f cs in if c.id == id then f c ∷ cs else c ∷ rest

-- CreatePropertyBlob, over what DRM_IOCTL_MODE_CREATEPROPBLOB gives: the id is written on success.
unfoldable pub create_property_blob : ℤ × ℕ → ℤ × Option ℕ
create_property_blob made = if is_set made.0 then (made.0, none) else (pos 0, some made.1)
