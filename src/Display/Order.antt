-- ===== src/Display/Order.antt =====
-- The layers that CreateComposition puts in a frame: their order, and that none is forgotten.
use drm_hwcomposer.Base.{
  ℕ, ◌<◌, ◌≡◌, refl, Bool, true, false, ◌||◌, ◌&&◌, none, List, [], ◌∷◌, arith, All, ltb, ◌==◌,
}
use drm_hwcomposer.Display.Layer.{
  HwcLayer, CompositionType, is_device, invalid, client, device, solid_color, cursor, sideband,
  unknown,
}
use drm_hwcomposer.Display.State.{Layers}
use drm_hwcomposer.Display.Zmap.{
  Entry, emplace_entry, collect, collect_layer, Collected, nothing_collected, composed_type,
  frame_entries, layer_entry,
}

abbrev pub ZAbove : ℕ → List Entry → Type 0
ZAbove z es = All (λ e. z < e.z) es

-- Strictly from the bottom to the top.
abbrev pub IsOrdered : List Entry → Type 0
IsOrdered [] = Unit
IsOrdered (e ∷ es) = ZAbove e.z es × IsOrdered es

-- Whether there is an entry at a z-order.
abbrev pub has_z : ℕ → List Entry → Bool
has_z z [] = false
has_z z (e ∷ es) = e.z == z || has_z z es

ZAbove-trans : (a b : ℕ) (es : List Entry) → a < b → ZAbove b es → ZAbove a es
ZAbove-trans a b [] h k = tt
ZAbove-trans a b (e ∷ es) h k = ground (arith, ZAbove-trans a b es)

emplace_entry-ZAbove :
    (z : ℕ) (e : Entry) (es : List Entry)
    → z < e.z
    → ZAbove z es
    → ZAbove z (emplace_entry ltb e es)
unfolding emplace_entry
emplace_entry-ZAbove z e [] h k = (h, tt)
emplace_entry-ZAbove z e (f ∷ es) h k = ground (arith, emplace_entry-ZAbove z e es)

emplace_entry-IsOrdered :
    (e : Entry) (es : List Entry) → IsOrdered es → IsOrdered (emplace_entry ltb e es)
unfolding emplace_entry
emplace_entry-IsOrdered e [] h = (tt, tt)
emplace_entry-IsOrdered e (f ∷ es) h =
    ground
      (arith, emplace_entry-IsOrdered e es, ZAbove-trans e.z f.z es, emplace_entry-ZAbove f.z e es)

emplace_entry-has_z :
    (z : ℕ) (e : Entry) (es : List Entry)
    → has_z z (emplace_entry ltb e es) ≡ (e.z == z || has_z z es)
unfolding emplace_entry
emplace_entry-has_z z e [] = refl
emplace_entry-has_z z e (f ∷ es) = ground (arith, emplace_entry-has_z z e es)

-- Whether a layer is among those for which a plane is wanted, at a z-order.
abbrev pub wants_z : Bool → ℕ → Layers → Bool
wants_z test z [] = false
wants_z test z (l ∷ ls) =
    (is_device (composed_type test l.1) && l.1.z_order == z) || wants_z test z ls

collect_layer-has_z :
    (z : ℕ) (t : CompositionType) (l : ℕ × HwcLayer) (c : Collected)
    → has_z z (collect_layer t l c).z_map ≡ ((is_device t && l.1.z_order == z) || has_z z c.z_map)
unfolding collect_layer
collect_layer-has_z z invalid (h, l) c = refl
collect_layer-has_z z client (h, l) c = refl
collect_layer-has_z z device (h, l) c = emplace_entry-has_z z (layer_entry (h, l)) c.z_map
collect_layer-has_z z solid_color (h, l) c = refl
collect_layer-has_z z cursor (h, l) c = refl
collect_layer-has_z z sideband (h, l) c = refl
collect_layer-has_z z (unknown n) (h, l) c = refl

pub collect_layer-IsOrdered :
    (t : CompositionType) (l : ℕ × HwcLayer) (c : Collected)
    → IsOrdered c.z_map
    → IsOrdered (collect_layer t l c).z_map
unfolding collect_layer
collect_layer-IsOrdered invalid l c o = o
collect_layer-IsOrdered client l c o = o
collect_layer-IsOrdered device l c o = emplace_entry-IsOrdered (layer_entry l) c.z_map o
collect_layer-IsOrdered solid_color l c o = o
collect_layer-IsOrdered cursor l c o = o
collect_layer-IsOrdered sideband l c o = o
collect_layer-IsOrdered (unknown n) l c o = o

pub collect-has_z :
    (test : Bool) (z : ℕ) (ls : Layers) (c : Collected)
    → has_z z (collect test ls c).z_map ≡ (wants_z test z ls || has_z z c.z_map)
unfolding collect
collect-has_z test z [] c = refl
collect-has_z test z (l ∷ ls) c =
    let t = composed_type test l.1 in
    ground (arith, collect-has_z test z ls (collect_layer t l c), collect_layer-has_z z t l c)

pub collect-IsOrdered :
    (test : Bool) (ls : Layers) (c : Collected)
    → IsOrdered c.z_map
    → IsOrdered (collect test ls c).z_map
unfolding collect
collect-IsOrdered test [] c o = o
collect-IsOrdered test (l ∷ ls) c o =
    let t = composed_type test l.1 in
    collect-IsOrdered test ls (collect_layer t l c) (collect_layer-IsOrdered t l c o)

-- The entries of a frame are ordered by their keys.
pub frame_entries-strict :
    (test : Bool) (layers : Layers) (client_layer : HwcLayer)
    → IsOrdered (frame_entries test layers client_layer)
unfolding frame_entries
frame_entries-strict test layers client_layer =
    let c = collect test layers nothing_collected in
    let o = collect-IsOrdered test layers nothing_collected tt in
    ground (
      arith,
      o,
      emplace_entry-IsOrdered (record { z = c.client_z_order; handle = none; layer = client_layer })
          c.z_map o,
    )

-- Wherever a layer wants a plane, the frame has a layer at its z-order.
pub frame_entries-has_z :
    (test : Bool) (layers : Layers) (client_layer : HwcLayer) (z : ℕ)
    → wants_z test z layers ≡ true
    → has_z z (frame_entries test layers client_layer) ≡ true
unfolding frame_entries
frame_entries-has_z test layers client_layer z h =
    let c = collect test layers nothing_collected in
    ground (
      arith,
      collect-has_z test z layers nothing_collected,
      emplace_entry-has_z z (record { z = c.client_z_order; handle = none; layer = client_layer })
          c.z_map,
    )
