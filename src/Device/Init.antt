-- ===== src/Device/Init.antt =====
-- DrmDevice::Init behind the making of the objects: a display number is given to one connector, and
-- each connector gets its CRTC and its writeback connector.
use drm_hwcomposer.Base.{
  ℕ, suc, Bool, ◌||◌, ◌&&◌, Option, none, some, List, [], ◌∷◌, ℤ, pos, enodev, enoent,
  if◌then◌else◌, ◌==◌, is_set, length, find?, map,
}
use drm_hwcomposer.Resources.{Result, ok, err, ◌>>=◌}
use drm_hwcomposer.Connector.{Connector, RawConnector, connected, internal, external}
use drm_hwcomposer.Device.State.{Device, no_device, change_connector}
use drm_hwcomposer.Device.Pipe.{create_display_pipe, attach_writeback}
use drm_hwcomposer.Device.Objects.{
  Raw, check, ◌>>◌, init_crtcs, init_encoders, add_clones, init_connectors, init_planes,
}

-- The two loops that give a connector its display: the first connected internal one, and if there
-- is none the first connected one that is internal or external; none if a primary was found before.
unfoldable pub is_internal_candidate : Connector → Bool
is_internal_candidate c = c.state == connected && internal c

unfoldable pub is_candidate : Connector → Bool
is_candidate c = (external c || internal c) && c.state == connected

unfoldable pub find_primary : List Connector → Option Connector
unfolding is_internal_candidate is_candidate
find_primary conns = elim (find? is_internal_candidate conns) [
  | some c ↦ some c
  | none ↦ find? is_candidate conns
]

unfoldable pub assign_display : ℕ → Device → ℕ × Device
unfolding find_primary change_connector
assign_display num_displays d =
    let found : ℕ × Device = elim (find_primary d.connectors) [
      | none ↦ (num_displays, d)
      | some c ↦ (
        suc num_displays,
        record d {
          connectors =
              change_connector c.id (λ conn. record conn { display = pos num_displays })
                d.connectors;
          displays = pos num_displays ∷ [];
        },
      )
    ] in
    if num_displays == 0 then found else (num_displays, d)

-- The last loop of Init, over the connectors: `none` is a read through a null pointer.
unfoldable pub connect_all : (ℕ → Option RawConnector) → List ℕ → Device → Option (ℤ × Device)
connect_all query [] d = some (pos 0, d)
connect_all query (id ∷ ids) d = elim (find? (λ c. c.id == id) d.connectors) [
  | none ↦ some (pos 0, d)
  | some conn ↦
      let made = create_display_pipe conn d in
      if is_set made.0 then some made else elim (find? (λ c. c.id == id) made.1.connectors) [
        | none ↦ some (pos 0, made.1)
        | some joined ↦ elim (attach_writeback query joined made.1) [
          | none ↦ none
          | some (ret, d') ↦ connect_all query ids d'
        ]
      ]
]

init_objects : Raw → ℕ → Result Device
unfolding init_crtcs init_encoders add_clones init_connectors init_planes assign_display
init_objects raw num_displays = do
  check (if raw.opened then pos 0 else enodev)
  check raw.universal_planes
  check raw.atomic
  check (if raw.has_resources then pos 0 else enodev)
  crtcs ← init_crtcs 0 raw.crtcs
  encoders ← init_encoders crtcs raw.encoders
  d ←
      init_connectors
        (record no_device {
          crtcs = crtcs;
          encoders = add_clones encoders raw.encoders encoders;
          min_resolution = raw.min_resolution;
          max_resolution = raw.max_resolution;
        })
        raw.connectors
  let d' = (assign_display num_displays d).1
  planes ← (elim raw.planes [ none ↦ err enoent | some ps ↦ init_planes ps ])
  check raw.listener
  ok (record d' { planes = planes })

-- DrmDevice::Init: the error with the number of displays, and the device where there is no error.
unfoldable pub init : Raw → ℕ → Option (ℤ × ℕ × Device)
unfolding init_objects connect_all
init raw num_displays = elim (init_objects raw num_displays) [
  | err e ↦ some (e, 0, no_device)
  | ok d ↦ elim (connect_all raw.query (map (λ c. c.id) d.connectors) d) [
    | none ↦ none
    | some (ret, d') ↦ some (ret, if is_set ret then 0 else length d'.displays, d')
  ]
]
