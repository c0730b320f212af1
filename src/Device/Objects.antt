-- ===== src/Device/Objects.antt =====
-- The objects of a device, made from what libdrm reports: the first part of DrmDevice::Init.
use drm_hwcomposer.Base.{
  ℕ, suc, Bool, Option, none, some, List, [], ◌∷◌, ℤ, neg, enodev, if◌then◌else◌, ◌==◌, is_set,
  has_bit, map,
}
use drm_hwcomposer.Property.{ObjectProperties}
use drm_hwcomposer.Resources.{Plane, Crtc, Result, ok, err, ◌>>=◌, plane_init, crtc_init}
use drm_hwcomposer.Connector.{Connector, RawConnector, connected, internal, external, writeback}
use drm_hwcomposer.Connector
use drm_hwcomposer.Device.State.{Encoder, Device, mem_id}

pub record RawCrtc : Type 0 where
  pub crtc_id : ℕ
  pub props : ObjectProperties

pub record RawEncoder : Type 0 where
  pub encoder_id : ℕ
  pub crtc_id : ℕ
  pub possible_crtcs : ℕ
  pub possible_clones : ℕ

pub record RawPlane : Type 0 where
  pub plane_id : ℕ
  pub possible_crtcs : ℕ
  pub props : ObjectProperties

-- What the calls of Init report, where a NULL is `none`: the descriptor of the opened device, the
-- results of drmSetClientCap, the resources, and the result of the event listener's Init.
pub record Raw : Type 0 where
  pub opened : Bool
  pub universal_planes : ℤ
  pub atomic : ℤ
  pub has_resources : Bool
  pub min_resolution : ℕ × ℕ
  pub max_resolution : ℕ × ℕ
  pub crtcs : List (Option RawCrtc)
  pub encoders : List (Option RawEncoder)
  pub connectors : List (Option (RawConnector × ObjectProperties))
  pub planes : Option (List (Option RawPlane))
  pub listener : ℤ
  pub query : ℕ → Option RawConnector

abbrev pub check : ℤ → Result (Unit {0})
check ret = if is_set ret then err ret else ok tt

infixl 5 ◌>>◌
abbrev pub ◌>>◌ {ℓ} : {B : Type ℓ} → Result (Unit {0}) → Result B → Result B
m >> k = m >>= λ _. k

abbrev pub or_missing {ℓ} : {A : Type ℓ} → Option A → Result A
or_missing none = err enodev
or_missing (some a) = ok a

-- The loop over the CRTCs: the pipe of a CRTC is its place in the list.
unfoldable pub init_crtcs : ℕ → List (Option RawCrtc) → Result (List Crtc)
init_crtcs i [] = ok []
init_crtcs i (c ∷ cs) = do
  raw ← or_missing c
  crtc ← crtc_init raw.crtc_id i raw.props
  rest ← init_crtcs (suc i) cs
  ok (crtc ∷ rest)

-- The CRTCs that an encoder may drive: `(1 << pipe) & possible_crtcs`.
crtcs_of_mask : ℕ → List Crtc → List ℕ
crtcs_of_mask mask [] = []
crtcs_of_mask mask (c ∷ cs) =
    let rest = crtcs_of_mask mask cs in if has_bit mask c.pipe then c.id ∷ rest else rest

-- `if (crtc->id() == e->crtc_id) current_crtc = …`, the last that fits.
last_with : ℕ → List ℕ → Option ℕ → Option ℕ
last_with id [] found = found
last_with id (x ∷ xs) found = last_with id xs (if x == id then some x else found)

unfoldable pub init_encoders : List Crtc → List (Option RawEncoder) → Result (List Encoder)
unfolding crtcs_of_mask last_with
init_encoders crtcs [] = ok []
init_encoders crtcs (e ∷ es) = do
  raw ← or_missing e
  rest ← init_encoders crtcs es
  ok (
      record {
        id = raw.encoder_id;
        crtc = last_with raw.crtc_id (map (λ c. c.id) crtcs) none;
        display = neg 1;
        possible_crtcs = crtcs_of_mask raw.possible_crtcs crtcs;
        possible_clones = [];
      }
      ∷ rest)

-- The double loop over AddPossibleClone: bit `j` of an encoder's mask is the j-th encoder.
clones_of_mask : ℕ → ℕ → List Encoder → List ℕ
clones_of_mask mask j [] = []
clones_of_mask mask j (e ∷ es) =
    let rest = clones_of_mask mask (suc j) es in if has_bit mask j then e.id ∷ rest else rest

abbrev clone_mask : Option RawEncoder → ℕ
clone_mask none = 0
clone_mask (some e) = e.possible_clones

unfoldable pub add_clones : List Encoder → List (Option RawEncoder) → List Encoder → List Encoder
unfolding clones_of_mask
add_clones all raws [] = []
add_clones all [] (e ∷ es) = e ∷ es
add_clones all (r ∷ rs) (e ∷ es) =
    record e { possible_clones = clones_of_mask (clone_mask r) 0 all } ∷ add_clones all rs es

-- The encoders that a connector names, in the order of its list.
encoders_in : List ℕ → List Encoder → List ℕ
encoders_in [] encoders = []
encoders_in (x ∷ xs) encoders =
    let rest = encoders_in xs encoders in
    if mem_id x (map (λ e. e.id) encoders) then x ∷ rest else rest

-- The current encoder is looked for once for every encoder in the connector's list.
current_encoder : RawConnector → List Encoder → Option ℕ
unfolding last_with
current_encoder c encoders = elim c.encoders [
  | [] ↦ none
  | x ∷ xs ↦ last_with c.encoder_id (map (λ e. e.id) encoders) none
]

abbrev add_connector : Connector → Device → Device
add_connector c d =
    if writeback c
    then record d { writeback_connectors = c ∷ d.writeback_connectors }
    else record d { connectors = c ∷ d.connectors }

unfoldable pub init_connectors :
    Device → List (Option (RawConnector × ObjectProperties)) → Result Device
unfolding encoders_in current_encoder
init_connectors d [] = ok d
init_connectors d (c ∷ cs) = do
  raw ← or_missing c
  let made =
      Connector.create raw.0 (current_encoder raw.0 d.encoders)
        (encoders_in raw.0.encoders d.encoders)
  conn ← Connector.init raw.1 made
  rest ← init_connectors d cs
  ok (add_connector conn rest)

unfoldable pub init_planes : List (Option RawPlane) → Result (List Plane)
init_planes [] = ok []
init_planes (p ∷ ps) = do
  raw ← or_missing p
  plane ← plane_init raw.plane_id raw.possible_crtcs raw.props
  rest ← init_planes ps
  ok (plane ∷ rest)
