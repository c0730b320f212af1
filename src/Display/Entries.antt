-- ===== src/Display/Entries.antt =====
-- Which layers the entries of a frame show, and where they stand (drmhwctwo.cpp, CreateComposition).
use drm_hwcomposer.Base.{
  ℕ, ◌^◌, ◌-◌, ◌<◌, ◌≡◌, refl, sym, ◌∙◌, ◌⊎◌, inl, inr, Bool, true, false, ◌||◌, Option, none, some,
  List, [], ◌∷◌, arith, All, All-weaken, ltb, min, if◌then◌else◌, Bool-cases,
}
use drm_hwcomposer.Display.Layer.{HwcLayer, CompositionType, is_device, is_client, client, device}
use drm_hwcomposer.Display.State.{Layers}
use drm_hwcomposer.Display.Zmap.{
  Entry, emplace_entry, collect, collect_layer, Collected, nothing_collected, composed_type,
  frame_entries, layer_entry,
}
use drm_hwcomposer.Display.Order.{IsOrdered, frame_entries-strict}

-- Whether a layer is composed by SurfaceFlinger.
abbrev pub has_client : Bool → Layers → Bool
has_client test [] = false
has_client test (l ∷ ls) = is_client (composed_type test l.1) || has_client test ls

-- The z-order of the lowest layer that is composed by SurfaceFlinger.
abbrev pub lowest_client : Bool → Layers → ℕ
lowest_client test [] = 2 ^ 32 - 1
lowest_client test (l ∷ ls) =
    if is_client (composed_type test l.1)
    then min l.1.z_order (lowest_client test ls)
    else lowest_client test ls

-- A layer with its handle is among the layers, and a plane is wanted for it.
abbrev pub IsWanted : Bool → ℕ × HwcLayer → Layers → Type 0
IsWanted test x [] = ⊥
IsWanted test x (l ∷ ls) =
    ((x ≡ l) × (is_device (composed_type test l.1) ≡ true)) ⊎ IsWanted test x ls

-- An entry with a handle is the layer of that handle, at that layer's z-order, and a plane is wanted
-- for it; one without is the client layer, at the z-order of the lowest layer that it stands for.
abbrev pub StandsAs : Bool → Layers → HwcLayer → Option ℕ → Entry → Type 0
StandsAs test layers client_layer (some h) e =
    (e.z ≡ e.layer.z_order) × IsWanted test (h, e.layer) layers
StandsAs test layers client_layer none e =
    (e.layer ≡ client_layer) × (e.z ≡ lowest_client test layers) × (has_client test layers ≡ true)

abbrev pub Stands : Bool → Layers → HwcLayer → Entry → Type 0
Stands test layers client_layer e = StandsAs test layers client_layer e.handle e

module _ (P : Entry → Type 0) where
  emplace_entry-All :
      (before : ℕ → ℕ → Bool) (e : Entry) (es : List Entry)
      → P e
      → All P es
      → All P (emplace_entry before e es)
  unfolding emplace_entry
  emplace_entry-All before e [] p a = (p, tt)
  emplace_entry-All before e (f ∷ es) p a = ground (arith, emplace_entry-All before e es p a.1)

  collect_layer-All :
      (t : CompositionType) (l : ℕ × HwcLayer) (c : Collected)
      → (is_device t ≡ true → P (layer_entry l))
      → All P c.z_map
      → All P (collect_layer t l c).z_map
  unfolding collect_layer
  collect_layer-All device l c p a = emplace_entry-All ltb (layer_entry l) c.z_map (p refl) a
  collect_layer-All _ l c p a = a

  collect-All :
      (test : Bool) (ls : Layers) (c : Collected)
      → All (λ l. is_device (composed_type test l.1) ≡ true → P (layer_entry l)) ls
      → All P c.z_map
      → All P (collect test ls c).z_map
  unfolding collect
  collect-All test [] c p a = a
  collect-All test (l ∷ ls) c p a =
      let t = composed_type test l.1 in
      collect-All test ls (collect_layer t l c) p.1 (collect_layer-All t l c p.0 a)

IsWanted-each :
    (test : Bool) (ls : Layers)
    → All (λ l. is_device (composed_type test l.1) ≡ true → IsWanted test l ls) ls
IsWanted-each test [] = tt
IsWanted-each test (l ∷ ls) =
    (λ d. inl (refl, d), All-weaken (λ x h d. inr (h d)) ls (IsWanted-each test ls))

collect_layer-client :
    (t : CompositionType) (l : ℕ × HwcLayer) (c : Collected)
    → ((collect_layer t l c).use_client_layer ≡ (is_client t || c.use_client_layer))
      × ((collect_layer t l c).client_z_order
          ≡ (if is_client t then min c.client_z_order l.1.z_order else c.client_z_order))
unfolding collect_layer
collect_layer-client client l c = (refl, refl)
collect_layer-client _ l c = (refl, refl)

collect-client :
    (test : Bool) (ls : Layers) (c : Collected)
    → c.client_z_order < 2 ^ 32
    → ((collect test ls c).use_client_layer ≡ (has_client test ls || c.use_client_layer))
      × ((collect test ls c).client_z_order ≡ min c.client_z_order (lowest_client test ls))
unfolding collect
collect-client test [] c h = (refl, omega arith)
collect-client test (l ∷ ls) c h =
    let t = composed_type test l.1 in
    ground (arith, collect-client test ls (collect_layer t l c), collect_layer-client t l c)

lowest_client-lt : (test : Bool) (ls : Layers) → lowest_client test ls < 2 ^ 32
lowest_client-lt test [] = omega arith
lowest_client-lt test (l ∷ ls) = ground (arith, lowest_client-lt test ls)

-- What the first loop of CreateComposition finds of the client layer.
pub collected :
    (test : Bool) (ls : Layers)
    → ((collect test ls nothing_collected).use_client_layer ≡ has_client test ls)
      × ((collect test ls nothing_collected).client_z_order ≡ lowest_client test ls)
collected test ls =
    ground (arith, collect-client test ls nothing_collected (omega arith), lowest_client-lt test ls)

-- A frame's entries stand strictly from the bottom to the top by the z-orders of their layers: each
-- is a layer for which a plane is wanted, at that layer's z-order, or the client layer, at the
-- z-order of the lowest layer that SurfaceFlinger composes, where there is one.
pub frame_entries-IsOrdered :
    (test : Bool) (layers : Layers) (client_layer : HwcLayer)
    → IsOrdered (frame_entries test layers client_layer)
      × All (Stands test layers client_layer) (frame_entries test layers client_layer)
unfolding frame_entries
frame_entries-IsOrdered test layers client_layer =
    let c = collect test layers nothing_collected in
    let P = Stands test layers client_layer in
    let (used, at) = collected test layers in
    let each = All-weaken (λ l h d. (refl, h d)) layers (IsWanted-each test layers) in
    let there : All P c.z_map = collect-All P test layers nothing_collected each tt in
    let entry : Entry = record { z = c.client_z_order; handle = none; layer = client_layer } in
    (
      frame_entries-strict test layers client_layer,
      elim (Bool-cases c.use_client_layer) [
        | inl u ↦ rw u (emplace_entry-All P ltb entry c.z_map (refl, at, sym used ∙ u) there)
        | inr u ↦ rw u there
      ],
    )
