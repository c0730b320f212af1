-- ===== src/Display/Client.antt =====
-- Where the layer that SurfaceFlinger composed enters a frame (drmhwctwo.cpp, CreateComposition).
use drm_hwcomposer.Base.{
  ℕ, ◌<◌, ◌≡◌, refl, ap, map, is_set, ◌∙◌, ◌⊎◌, inl, inr, Bool, true, false, ◌||◌, ◌&&◌, not,
  Option, none, some, List, [], ◌∷◌, arith, ltb, Bool-cases,
}
use drm_hwcomposer.Layer.{DrmLayer, import_buffer}
use drm_hwcomposer.Display.Layer.{HwcLayer, populate_drm_layer, CompositionType, device}
use drm_hwcomposer.Display.State.{Layers, Display}
use drm_hwcomposer.Display.Compose.{Platform, import_entries}
use drm_hwcomposer.Display.Shown.{imported}
use drm_hwcomposer.Display.Zmap.{
  Entry, emplace_entry, collect, collect_layer, Collected, nothing_collected, composed_type,
  frame_entries,
}
use drm_hwcomposer.Display.Order.{
  ZAbove, IsOrdered, has_z, wants_z, collect-has_z, collect-IsOrdered, collect_layer-IsOrdered,
}
use drm_hwcomposer.Display.Entries.{has_client, lowest_client, collected}

abbrev is_none : Option ℕ → Bool
is_none none = true
is_none (some h) = false

-- Whether the client layer is among the entries.
abbrev pub holds_client : List Entry → Bool
holds_client [] = false
holds_client (e ∷ es) = is_none e.handle || holds_client es

has_z-below : (z : ℕ) (es : List Entry) → ZAbove z es → has_z z es ≡ false
has_z-below z [] h = refl
has_z-below z (e ∷ es) h = ground (arith, has_z-below z es h.1)

has_z-above : (a z : ℕ) (es : List Entry) → a < z → ZAbove z es → has_z a es ≡ false
has_z-above a z [] k h = refl
has_z-above a z (e ∷ es) k h = ground (arith, has_z-above a z es k h.1)

emplace_entry-holds_client :
    (z : ℕ) (handle : Option ℕ) (l : HwcLayer) (es : List Entry)
    → IsOrdered es
    → holds_client (emplace_entry ltb (record { z = z; handle = handle; layer = l }) es)
      ≡ ((is_none handle && not (has_z z es)) || holds_client es)
unfolding emplace_entry
emplace_entry-holds_client z handle l [] o = ground arith
emplace_entry-holds_client z handle l (f ∷ es) o = ground (
  arith,
  emplace_entry-holds_client z handle l es o.1,
  has_z-above z f.z es,
  has_z-below f.z es o.0,
)

collect_layer-holds_client :
    (t : CompositionType) (l : ℕ × HwcLayer) (c : Collected)
    → IsOrdered c.z_map
    → holds_client (collect_layer t l c).z_map ≡ holds_client c.z_map
unfolding collect_layer
collect_layer-holds_client device (h, l) c o =
    emplace_entry-holds_client l.z_order (some h) l c.z_map o
collect_layer-holds_client _ l c o = refl

collect-holds_client :
    (test : Bool) (ls : Layers) (c : Collected)
    → IsOrdered c.z_map
    → holds_client (collect test ls c).z_map ≡ holds_client c.z_map
unfolding collect
collect-holds_client test [] c o = refl
collect-holds_client test (l ∷ ls) c o =
    let t = composed_type test l.1 in
    collect-holds_client test ls (collect_layer t l c) (collect_layer-IsOrdered t l c o)
    ∙ collect_layer-holds_client t l c o

-- The client layer is in a frame just where SurfaceFlinger composes some layer and no layer for
-- which a plane is wanted stands at the z-order of the lowest of those.
pub frame_entries-holds_client :
    (test : Bool) (layers : Layers) (client_layer : HwcLayer)
    → holds_client (frame_entries test layers client_layer)
      ≡ (has_client test layers && not (wants_z test (lowest_client test layers) layers))
unfolding frame_entries
frame_entries-holds_client test layers client_layer =
    let c = collect test layers nothing_collected in
    let (used, at) = collected test layers in
    let o = collect-IsOrdered test layers nothing_collected tt in
    let held = emplace_entry-holds_client c.client_z_order none client_layer c.z_map o in
    let empty = collect-holds_client test layers nothing_collected tt in
    let there = collect-has_z test c.client_z_order layers nothing_collected in
    let moved = ap (λ z. wants_z test z layers) at in
    elim (Bool-cases c.use_client_layer) [
      | inl u ↦ rw u (ground (arith, used, held, empty, there, moved, u))
      | inr u ↦ rw u (ground (arith, used, empty, u))
    ]

-- The imported layer that CreateComposition makes of an entry.
abbrev pub drm_layer : Platform → Entry → DrmLayer
drm_layer platform e = (import_buffer platform.importer (populate_drm_layer e.layer).0).1

-- Unless an import fails, PresentDisplay imports every entry of the display's frame, in order; and
-- the client layer is an entry just where some layer is composed by SurfaceFlinger and no layer that
-- has a plane stands at the z-order of the lowest of those.
abbrev pub IsWhole : {K : Type 0} → Platform → Display K → Type 0
IsWhole platform d =
    ((is_set (imported platform d).0 ≡ true)
      ⊎ ((imported platform d).1
          ≡ map (drm_layer platform) (frame_entries false d.layers d.client_layer)))
    × (holds_client (frame_entries false d.layers d.client_layer) ≡ (
        has_client false d.layers && not (wants_z false (lowest_client false d.layers) d.layers)))

import_entries-all :
    (platform : Platform) (es : List Entry)
    → (is_set (import_entries platform.importer es).0 ≡ true)
      ⊎ ((import_entries platform.importer es).1 ≡ map (drm_layer platform) es)
unfolding import_entries
import_entries-all platform [] = inr refl
import_entries-all platform (e ∷ es) =
    let done = import_buffer platform.importer (populate_drm_layer e.layer).0 in
    elim (Bool-cases (is_set done.0)) [
      | inl failed ↦ inl (rw failed failed)
      | inr ok ↦ rw ok (elim (import_entries-all platform es) [
        | inl failed ↦ inl failed
        | inr all ↦ inr (ap (λ ls. done.1 ∷ ls) all)
      ])
    ]

pub whole : {K : Type 0} (platform : Platform) (d : Display K) → IsWhole platform d
whole platform d = (
  import_entries-all platform (frame_entries false d.layers d.client_layer),
  frame_entries-holds_client false d.layers d.client_layer,
)
