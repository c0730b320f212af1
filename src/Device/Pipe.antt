-- ===== src/Device/Pipe.antt =====
-- Connecting a display: TryEncoderForDisplay, CreateDisplayPipe, AttachWriteback and
-- AvailableWritebackConnector. In a result, `none` is a read through a null pointer.
use drm_hwcomposer.Base.{
  ℕ, Bool, true, false, ◌&&◌, not, Option, none, some, List, [], ◌∷◌, ℤ, pos, negsuc, eagain,
  enodev, einval, if◌then◌else◌, ◌==◌, ◌==ℤ◌, find?, is_set,
}
use drm_hwcomposer.Resources.{Crtc, can_bind}
use drm_hwcomposer.Connector.{Connector, RawConnector, connected, disconnected, update_modes}
use drm_hwcomposer.Device.State.{
  Encoder, Device, can_clone, get_crtc, get_encoder, get_connector_for_display,
  get_writeback_connector_for_display, set_crtc_display, set_encoder_crtc, change_connector, mem_id,
}

-- `crtc->set_display(display); enc->set_crtc(crtc); return 0;`
unfoldable pub bind : ℤ → ℕ → ℕ → Device → Device
bind display crtc enc d = record d {
  crtcs = set_crtc_display crtc display d.crtcs;
  encoders = set_encoder_crtc enc crtc display d.encoders;
}

unfoldable pub crtc_can_bind : Device → ℤ → ℕ → Bool
unfolding can_bind
crtc_can_bind d display crtc = elim (get_crtc crtc d.crtcs) [
  | none ↦ false
  | some c ↦ can_bind c.display display
]

abbrev pub is_current : Option ℕ → ℕ → Bool
is_current none crtc = false
is_current (some c) crtc = c == crtc

-- The second part of TryEncoderForDisplay: the first possible CRTC that can be bound.
unfoldable pub try_crtcs : ℤ → Encoder → List ℕ → Device → ℤ × Device
unfolding crtc_can_bind bind
try_crtcs display enc [] d = (eagain, d)
try_crtcs display enc (crtc ∷ rest) d =
    let more = try_crtcs display enc rest d in
    if is_current enc.crtc crtc
    then more
    else if crtc_can_bind d display crtc
    then (pos 0, bind display crtc enc.id d)
    else more

unfoldable pub try_encoder_for_display : ℤ → Encoder → Device → ℤ × Device
unfolding try_crtcs crtc_can_bind bind
try_encoder_for_display display enc d = elim enc.crtc [
  | none ↦ try_crtcs display enc enc.possible_crtcs d
  | some crtc ↦
      if crtc_can_bind d display crtc
      then (pos 0, bind display crtc enc.id d)
      else try_crtcs display enc enc.possible_crtcs d
]

-- An encoder through a pointer; a pointer of the device always names one of its encoders.
unfoldable pub try_encoder : ℤ → ℕ → Device → ℤ × Device
unfolding try_encoder_for_display
try_encoder display enc d = elim (get_encoder enc d.encoders) [
  | none ↦ (eagain, d)
  | some e ↦ try_encoder_for_display display e d
]

-- The loop of CreateDisplayPipe over the possible encoders.
unfoldable pub try_encoders : Connector → List ℕ → Device → ℤ × Device
unfolding try_encoder
try_encoders conn [] d = if conn.state == disconnected then (pos 0, d) else (enodev, d)
try_encoders conn (enc ∷ rest) d =
    let tried = try_encoder conn.display enc d in
    let more = try_encoders conn rest tried.1 in
    if not (is_set tried.0)
    then (
      pos 0,
      record tried.1 {
        connectors =
            change_connector conn.id (λ c. record c { encoder = some enc }) tried.1.connectors;
      },
    )
    else if not (tried.0 ==ℤ eagain)
    then tried
    else more

unfoldable pub create_display_pipe : Connector → Device → ℤ × Device
unfolding try_encoders try_encoder
create_display_pipe conn d = elim conn.encoder [
  | none ↦ try_encoders conn conn.possible_encoders d
  | some enc ↦
      let tried = try_encoder conn.display enc d in
      let more = try_encoders conn conn.possible_encoders tried.1 in
      if not (is_set tried.0)
      then (pos 0, tried.1)
      else if not (tried.0 ==ℤ eagain)
      then tried
      else more
]

-- The inner loops of AttachWriteback: an encoder that may drive the display's CRTC and is not yet
-- bound to another display.
encoder_fits : Device → Crtc → ℕ → Bool
unfolding can_bind
encoder_fits d display_crtc enc = elim (get_encoder enc d.encoders) [
  | none ↦ false
  | some e ↦ mem_id display_crtc.id e.possible_crtcs && can_bind e.display display_crtc.display
]

-- The writeback connectors in order: the first that has no display and an encoder that fits.
unfoldable pub find_writeback : Device → Crtc → List Connector → Option (Connector × ℕ)
unfolding encoder_fits
find_writeback d display_crtc [] = none
find_writeback d display_crtc (w ∷ ws) =
    let rest = find_writeback d display_crtc ws in
    let here : Option (Connector × ℕ) =
      elim (find? (encoder_fits d display_crtc) w.possible_encoders) [
        | none ↦ rest
        | some enc ↦ some (w, enc)
      ] in
    elim w.display [ pos n ↦ rest | negsuc n ↦ here ]

-- `writeback_conn->UpdateModes()`, whose error is not looked at: `query` is drmModeGetConnector.
unfoldable pub attach : (ℕ → Option RawConnector) → Crtc → Connector → ℕ → Device → Device
unfolding update_modes
attach query display_crtc w enc d =
    let joined = record w { encoder = some enc; display = display_crtc.display } in
    let updated = update_modes (query w.id) d.mode_id joined in
    record d {
      encoders = set_encoder_crtc enc display_crtc.id display_crtc.display d.encoders;
      writeback_connectors = change_connector w.id (λ c. updated.2) d.writeback_connectors;
      mode_id = updated.1;
    }

attach_to_crtc : (ℕ → Option RawConnector) → Crtc → Device → ℤ × Device
unfolding find_writeback attach
attach_to_crtc query display_crtc d =
    elim (get_writeback_connector_for_display d display_crtc.display) [
      | some w ↦ (einval, d)
      | none ↦ elim (find_writeback d display_crtc d.writeback_connectors) [
        | none ↦ (einval, d)
        | some (w, enc) ↦ (pos 0, attach query display_crtc w enc d)
      ]
    ]

-- The CRTC that the connector's encoder has: `display_conn->encoder()->crtc()`.
unfoldable pub display_crtc_of : Connector → Device → Option Crtc
display_crtc_of conn d = elim conn.encoder [
  | none ↦ none
  | some enc ↦ elim (get_encoder enc d.encoders) [
    | none ↦ none
    | some e ↦ elim e.crtc [ none ↦ none | some crtc ↦ get_crtc crtc d.crtcs ]
  ]
]

-- AttachWriteback reads the encoder and its CRTC without a test.
unfoldable pub attach_writeback :
    (ℕ → Option RawConnector) → Connector → Device → Option (ℤ × Device)
unfolding display_crtc_of attach_to_crtc
attach_writeback query conn d = elim (display_crtc_of conn d) [
  | none ↦ none
  | some crtc ↦ some (attach_to_crtc query crtc d)
]

clones : Device → Connector → Connector → Option Bool
unfolding can_clone
clones d writeback_conn display_conn = elim writeback_conn.encoder [
  | none ↦ none
  | some enc ↦ elim (get_encoder enc d.encoders) [
    | none ↦ none
    | some e ↦ elim display_conn.encoder [
      | none ↦ some false
      | some other ↦ some (can_clone e other)
    ]
  ]
]

abbrev shows_display : Option Connector → Bool
shows_display none = false
shows_display (some c) = c.state == connected

-- The loop of AvailableWritebackConnector over the other CRTCs.
unfoldable pub free_writeback : Device → ℤ → List Crtc → Option Connector
free_writeback d display [] = none
free_writeback d display (c ∷ cs) =
    let rest = free_writeback d display cs in
    if c.display ==ℤ display
    then rest
    else if shows_display (get_connector_for_display d c.display)
    then rest
    else elim (get_writeback_connector_for_display d c.display) [ none ↦ rest | some w ↦ some w ]

unfoldable pub available_writeback_connector : Device → ℤ → Option (Option Connector)
unfolding clones free_writeback
available_writeback_connector d display =
    let other = free_writeback d display d.crtcs in
    elim (get_connector_for_display d display) [
      | none ↦ some other
      | some display_conn ↦ elim (get_writeback_connector_for_display d display) [
        | none ↦ some other
        | some w ↦ elim (clones d w display_conn) [
          | none ↦ none
          | some true ↦ some (some w)
          | some false ↦ some other
        ]
      ]
    ]
