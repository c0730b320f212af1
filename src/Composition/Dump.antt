-- ===== src/Composition/Dump.antt =====
-- DrmDisplayComposition::Dump and its helpers (drmdisplaycomposition.cpp). A stream is the list of
-- what is written to it, in order: texts and numbers.
use Prim.Native.String.{String}
use drm_hwcomposer.Base.{
  ℕ, suc, ◌-◌, ◌^◌, Bool, true, false, not, Option, none, some, List, [], ◌∷◌, ◌++◌, if◌then◌else◌,
  ◌==◌, has_bit, bit_or, bit_and, length,
}
use drm_hwcomposer.Layer.{
  DrmLayer, Bo, Blending, no_blending, pre_mult, coverage, flip_h, rotate_90, rotate_180,
  rotate_270, protected_usage,
}
use drm_hwcomposer.Planner.{CompositionPlane, CompositionKind, disable, layer}
use drm_hwcomposer.Composition.{
  Composition, CompositionType, empty, frame, dpms, modeset, dpms_on, dpms_off,
}

pub data Piece : Type 0 where
  literal : String → Piece
  number : ℕ → Piece

abbrev pub Stream : Type 0
Stream = List Piece

-- DrmCompositionTypeToString.
unfoldable pub composition_type_to_string : CompositionType → String
composition_type_to_string empty = "EMPTY"
composition_type_to_string frame = "FRAME"
composition_type_to_string dpms = "DPMS"
composition_type_to_string modeset = "MODESET"

unfoldable pub dpms_mode_to_string : ℕ → String
dpms_mode_to_string mode =
    if mode == dpms_on then "ON" else if mode == dpms_off then "OFF" else "<invalid>"

unfoldable pub dump_buffer : Option Bo → Stream
dump_buffer none = literal "buffer=<invalid>" ∷ []
dump_buffer (some bo) =
    literal "buffer[w/h/format]="
    ∷ number bo.width
    ∷ literal "/"
    ∷ number bo.height
    ∷ literal "/"
    ∷ number bo.format
    ∷ []

-- One of the names of DumpTransform, where its test holds, with the separator that it then needs;
-- the second result is `separator`.
abbrev pub name_bit : Bool → String → Stream × Bool → Stream × Bool
name_bit test name done =
    if test
    then (done.0 ++ (if done.1 then literal "|" ∷ [] else []) ++ literal name ∷ [], true)
    else done

-- `valid_bits`, which names kFlipH twice, and its complement in 32 bits.
abbrev pub valid_bits : ℕ
valid_bits = bit_or (bit_or (bit_or (bit_or flip_h flip_h) rotate_90) rotate_180) rotate_270

abbrev pub invalid_bits : ℕ
invalid_bits = 2 ^ 32 - 1 - valid_bits

unfoldable pub dump_transform : ℕ → Stream
dump_transform transform =
    let identity = if transform == 0 then literal "IDENTITY" ∷ [] else [] in
    let names = name_bit (has_bit transform 4) "ROTATE270" (
      name_bit (has_bit transform 3) "ROTATE180" (
        name_bit (has_bit transform 2) "ROTATE90" (
          name_bit (has_bit transform 1) "FLIPV"
            (name_bit (has_bit transform 0) "FLIPH" (literal "[" ∷ identity, false))))) in
    (name_bit (not (bit_and transform invalid_bits == 0)) "INVALID" names).0 ++ literal "]" ∷ []

unfoldable pub blending_to_string : Blending → String
blending_to_string no_blending = "NONE"
blending_to_string pre_mult = "PREMULT"
blending_to_string coverage = "COVERAGE"

unfoldable pub dump_layer : ℕ → DrmLayer → Stream
unfolding dump_buffer dump_transform blending_to_string protected_usage
dump_layer i l =
    literal "      [" ∷ number i ∷ literal "] " ∷ dump_buffer l.buffer
    ++ (if protected_usage l then literal " protected" ∷ [] else [])
    ++ literal " transform=" ∷ dump_transform l.transform
    ++ literal " blending[a="
      ∷ number l.alpha
      ∷ literal "]="
      ∷ literal (blending_to_string l.blending)
      ∷ literal "\n"
      ∷ []

-- The loop over the layers, from the index on.
unfoldable pub dump_layers : ℕ → List DrmLayer → Stream
unfolding dump_layer
dump_layers i [] = []
dump_layers i (l ∷ ls) = dump_layer i l ++ dump_layers (suc i) ls

abbrev kind_to_string : CompositionKind → String
kind_to_string disable = "DISABLE"
kind_to_string layer = "LAYER"

-- `pointer ? pointer->id() : -1` is a uint32_t.
abbrev pub id_or_none : Option ℕ → ℕ
id_or_none none = 2 ^ 32 - 1
id_or_none (some id) = id

abbrev dump_sources : List ℕ → Stream
dump_sources [] = []
dump_sources (i ∷ is) = number i ∷ literal " " ∷ dump_sources is

unfoldable pub dump_plane : ℕ → CompositionPlane → Stream
dump_plane i p =
    literal "      ["
      ∷ number i
      ∷ literal "]"
      ∷ literal " plane="
      ∷ number (id_or_none (elim p.plane [ none ↦ none | some plane ↦ some plane.id ]))
      ∷ literal " type="
      ∷ literal (kind_to_string p.kind)
      ∷ literal " source_layer="
      ∷ dump_sources p.source_layers
    ++ literal "\n" ∷ []

unfoldable pub dump_planes : ℕ → List CompositionPlane → Stream
unfolding dump_plane
dump_planes i [] = []
dump_planes i (p ∷ ps) = dump_plane i p ++ dump_planes (suc i) ps

abbrev dump_state : Composition → Stream
dump_state c = elim c.kind [
  | dpms ↦ literal " dpms_mode=" ∷ literal (dpms_mode_to_string c.dpms_mode) ∷ []
  | modeset ↦
      literal " display_mode="
      ∷ number c.display_mode.h_display
      ∷ literal "x"
      ∷ number c.display_mode.v_display
      ∷ []
  | _ ↦ []
]

unfoldable pub dump : Composition → Stream
unfolding composition_type_to_string dpms_mode_to_string dump_layers dump_planes
dump c =
    literal "----DrmDisplayComposition"
      ∷ literal " crtc="
      ∷ number (id_or_none (elim c.crtc [ none ↦ none | some crtc ↦ some crtc.id ]))
      ∷ literal " type="
      ∷ literal (composition_type_to_string c.kind)
      ∷ dump_state c
    ++ literal "    Layers: count="
      ∷ number (length c.layers)
      ∷ literal "\n"
      ∷ dump_layers 0 c.layers
    ++ literal "    Planes: count="
      ∷ number (length c.composition_planes)
      ∷ literal "\n"
      ∷ dump_planes 0 c.composition_planes
