-- ===== src/Examples/Card.antt =====
-- What libdrm reports of a card with a CRTC, an encoder, an internal connector and two planes.
use Prim.Native.String.{String}
use drm_hwcomposer.Base.{ℕ, true, some, [], ◌∷◌, pos, ◌≡◌, refl}
use drm_hwcomposer.Mode.{default_mode, to_info}
use drm_hwcomposer.Property.{RawProperty, ObjectProperties}
use drm_hwcomposer.Connector.{RawConnector}
use drm_hwcomposer.Manager.{DevicePath, single, Manager, init_manager}
use drm_hwcomposer.Resources
use drm_hwcomposer.Property
use drm_hwcomposer.Connector
use drm_hwcomposer.Device.Pipe
use drm_hwcomposer.Device.State
use drm_hwcomposer.Device.State.{Device, no_device}
use drm_hwcomposer.Device.Objects.{Raw}
use drm_hwcomposer.Device.Init.{init}
use drm_hwcomposer.Examples.Data.{crtc, connector, primary_plane, overlay_plane, platform}

-- A property with an id and a value; the flags are those of a range.
abbrev range_property : String → ℕ → RawProperty × ℕ
range_property name id = (
  record { name = name; prop_id = id; flags = 2; values = 0 ∷ 100 ∷ []; enums = []; blob_ids = [] },
  0,
)

-- The type of a plane, an enum with the entries 0 (overlay), 1 (primary) and 2 (cursor).
abbrev plane_type : ℕ → RawProperty × ℕ
plane_type kind = (
  record {
    name = "type";
    prop_id = 30;
    flags = 8;
    values = 0 ∷ 1 ∷ 2 ∷ [];
    enums = 0 ∷ 1 ∷ 2 ∷ [];
    blob_ids = [];
  },
  kind,
)

abbrev plane_properties : ℕ → ObjectProperties
plane_properties kind = some (
    plane_type kind
    ∷ range_property "CRTC_ID" 1
    ∷ range_property "FB_ID" 2
    ∷ range_property "CRTC_X" 3
    ∷ range_property "CRTC_Y" 4
    ∷ range_property "CRTC_W" 5
    ∷ range_property "CRTC_H" 6
    ∷ range_property "SRC_X" 7
    ∷ range_property "SRC_Y" 8
    ∷ range_property "SRC_W" 9
    ∷ range_property "SRC_H" 10
    ∷ range_property "rotation" 11
    ∷ range_property "IN_FENCE_FD" 12
    ∷ [])

abbrev pub report : RawConnector
report = record {
  connector_id = 50;
  connector_type = 14;
  connection = 1;
  width = 100;
  height = 60;
  encoder_id = 45;
  encoders = 45 ∷ [];
  modes = record (to_info default_mode) { hdisplay = 100; vdisplay = 60 } ∷ [];
}

abbrev pub card : Raw
card = record {
  opened = true;
  universal_planes = pos 0;
  atomic = pos 0;
  has_resources = true;
  min_resolution = (1, 1);
  max_resolution = (4096, 4096);
  crtcs =
      some (record {
        crtc_id = 40;
        props = some (
            range_property "ACTIVE" 20
            ∷ range_property "MODE_ID" 21
            ∷ range_property "OUT_FENCE_PTR" 22
            ∷ []);
      })
      ∷ [];
  encoders =
      some (record { encoder_id = 45; crtc_id = 40; possible_crtcs = 1; possible_clones = 0 }) ∷ [];
  connectors =
      some (report, some (range_property "DPMS" 23 ∷ range_property "CRTC_ID" 24 ∷ [])) ∷ [];
  planes = some (
      some (record { plane_id = 31; possible_crtcs = 1; props = plane_properties 1 })
      ∷ some (record { plane_id = 32; possible_crtcs = 1; props = plane_properties 0 })
      ∷ []);
  listener = pos 0;
  query = λ id. some report;
}

abbrev pub path : DevicePath
path = single (record { raw = card; importer = some platform.importer })

-- The device that comes of it: the objects that the other examples use.
abbrev pub card_device : Device
card_device = record no_device {
  crtcs = crtc ∷ [];
  encoders =
      record {
        id = 45;
        crtc = some 40;
        display = pos 0;
        possible_crtcs = 40 ∷ [];
        possible_clones = [];
      }
      ∷ [];
  connectors = connector ∷ [];
  planes = primary_plane ∷ overlay_plane ∷ [];
  min_resolution = (1, 1);
  max_resolution = (4096, 4096);
  displays = pos 0 ∷ [];
}

abbrev pub manager : Manager
manager = record { num_displays = 1; drms = (card_device, platform.importer) ∷ [] }

pub outcome-init_manager : init_manager path (pos 0) ≡ some (pos 0, manager)
unfolding init_manager init Resources.crtc_init Resources.plane_init Property.get_property
    Property.value Connector.init Connector.create Connector.internal Pipe.create_display_pipe
    Pipe.attach_writeback State.get_encoder State.get_crtc State.set_encoder_crtc
    State.set_crtc_display State.get_writeback_connector_for_display
outcome-init_manager = refl
