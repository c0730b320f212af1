-- ===== src/Display/Handles.antt =====
-- The map from handles to layers, under CreateLayer and DestroyLayer.
use drm_hwcomposer.Base.{
  ℕ, ◌+◌, ◌≤◌, ◌<◌, ◌^◌, ◌%◌, ◌≡◌, ◌≢◌, refl, none, some, List, map, [], ◌∷◌, arith, All, ◌==◌,
  if◌then◌else◌,
}
use drm_hwcomposer.Display.Layer.{HwcLayer, new_hwc_layer}
use drm_hwcomposer.Display.State.{
  Layers, Display, emplace_layer, erase_layer, find_layer, create_layer, destroy_layer,
}

abbrev pub handles : Layers → List ℕ
handles = map (λ l. l.0)

abbrev pub Above : ℕ → Layers → Type 0
Above h layers = All (λ k. h < k) (handles layers)

abbrev pub Below : ℕ → Layers → Type 0
Below h layers = All (λ k. k < h) (handles layers)

abbrev pub Ascending : List ℕ → Type 0
Ascending [] = Unit
Ascending (k ∷ ks) = All (λ j. k < j) ks × Ascending ks

-- The handles increase strictly.
abbrev pub IsSorted : Layers → Type 0
IsSorted layers = Ascending (handles layers)

emplace_layer-Below :
    (h m : ℕ) (l : HwcLayer) (layers : Layers)
    → h < m
    → Below m layers
    → Below m (emplace_layer h l layers)
unfolding emplace_layer
emplace_layer-Below h m l [] k b = (k, tt)
emplace_layer-Below h m l ((x, y) ∷ rest) k b = ground (arith, emplace_layer-Below h m l rest)

emplace_layer-Above :
    (h m : ℕ) (l : HwcLayer) (layers : Layers)
    → m < h
    → Above m layers
    → Above m (emplace_layer h l layers)
unfolding emplace_layer
emplace_layer-Above h m l [] k b = (k, tt)
emplace_layer-Above h m l ((x, y) ∷ rest) k b = ground (arith, emplace_layer-Above h m l rest)

Above-trans : (a b : ℕ) (layers : Layers) → a < b → Above b layers → Above a layers
Above-trans a b [] h k = tt
Above-trans a b (l ∷ rest) h k = ground (arith, Above-trans a b rest)

emplace_layer-IsSorted :
    (h : ℕ) (l : HwcLayer) (layers : Layers) → IsSorted layers → IsSorted (emplace_layer h l layers)
unfolding emplace_layer
emplace_layer-IsSorted h l [] s = (tt, tt)
emplace_layer-IsSorted h l ((x, y) ∷ rest) s =
    ground
      (arith, emplace_layer-IsSorted h l rest, Above-trans h x rest, emplace_layer-Above h x l rest)

find_layer-emplace_eq :
    (h : ℕ) (l : HwcLayer) (layers : Layers)
    → Below h layers
    → find_layer h (emplace_layer h l layers) ≡ some l
unfolding emplace_layer find_layer
find_layer-emplace_eq h l [] b = ground arith
find_layer-emplace_eq h l ((x, y) ∷ rest) b = ground (arith, find_layer-emplace_eq h l rest)

find_layer-emplace_ne :
    (h k : ℕ) (l : HwcLayer) (layers : Layers)
    → k ≢ h
    → find_layer k (emplace_layer h l layers) ≡ find_layer k layers
unfolding emplace_layer find_layer
find_layer-emplace_ne h k l [] n = ground arith
find_layer-emplace_ne h k l ((x, y) ∷ rest) n = ground (arith, find_layer-emplace_ne h k l rest)

find_layer-Below : (h : ℕ) (layers : Layers) → Below h layers → find_layer h layers ≡ none
unfolding find_layer
find_layer-Below h [] b = refl
find_layer-Below h ((x, y) ∷ rest) b = ground (arith, find_layer-Below h rest)

find_layer-Above : (h : ℕ) (layers : Layers) → Above h layers → find_layer h layers ≡ none
unfolding find_layer
find_layer-Above h [] b = refl
find_layer-Above h ((x, y) ∷ rest) b = ground (arith, find_layer-Above h rest)

find_layer-erase :
    (h k : ℕ) (layers : Layers)
    → IsSorted layers
    → find_layer k (erase_layer h layers) ≡ (if k == h then none else find_layer k layers)
unfolding erase_layer find_layer
find_layer-erase h k [] s = ground arith
find_layer-erase h k ((x, y) ∷ rest) s =
    ground (arith, find_layer-erase h k rest s.1, find_layer-Above x rest)

erase_layer-All :
    (P : ℕ → Type 0) (h : ℕ) (layers : Layers)
    → All P (handles layers)
    → All P (handles (erase_layer h layers))
unfolding erase_layer
erase_layer-All P h [] a = tt
erase_layer-All P h ((x, y) ∷ rest) a = ground (arith, erase_layer-All P h rest a.1)

erase_layer-IsSorted : (h : ℕ) (layers : Layers) → IsSorted layers → IsSorted (erase_layer h layers)
unfolding erase_layer
erase_layer-IsSorted h [] s = tt
erase_layer-IsSorted h ((x, y) ∷ rest) s =
    ground (arith, erase_layer-IsSorted h rest, erase_layer-All (λ k. x < k) h rest s.0)

-- The handles in use, which are sorted and below the next one.
pub record HandlesIsValid {K : Type 0} (d : Display K) : Type 0 where
  pub sorted : IsSorted d.layers
  pub below : Below d.layer_idx d.layers

Below-up : (a b : ℕ) (layers : Layers) → a ≤ b → Below a layers → Below b layers
Below-up a b [] h k = tt
Below-up a b (l ∷ rest) h k = ground (arith, Below-up a b rest)

module _ {K : Type 0} where
  -- Until the 32-bit counter of handles wraps around, CreateLayer gives a handle that names a fresh
  -- layer, leaves what every other handle names as it was, and keeps the handles valid.
  pub create_layer_lem :
      (d : Display K) (other : ℕ)
      → HandlesIsValid d
      → d.layer_idx + 1 < 2 ^ 32
      → let (_, h, d') = create_layer d in
        (find_layer h d.layers ≡ none)
        × (find_layer h d'.layers ≡ some new_hwc_layer)
        × (find_layer other d'.layers
            ≡ (if other == h then some new_hwc_layer else find_layer other d.layers))
        × HandlesIsValid d'
  unfolding create_layer
  create_layer_lem d other v k = (
    find_layer-Below d.layer_idx d.layers v.below,
    find_layer-emplace_eq d.layer_idx new_hwc_layer d.layers v.below,
    ground (
      arith,
      find_layer-emplace_eq d.layer_idx new_hwc_layer d.layers v.below,
      find_layer-emplace_ne d.layer_idx other new_hwc_layer d.layers,
    ),
    record {
      sorted = emplace_layer-IsSorted d.layer_idx new_hwc_layer d.layers v.sorted;
      below =
          emplace_layer-Below d.layer_idx ((d.layer_idx + 1) % 2 ^ 32) new_hwc_layer d.layers
            (omega arith)
            (Below-up d.layer_idx ((d.layer_idx + 1) % 2 ^ 32) d.layers (omega arith) v.below);
    },
  )

  -- DestroyLayer takes its handle away, and leaves what every other handle names.
  pub destroy_layer_lem :
      (d : Display K) (h other : ℕ)
      → HandlesIsValid d
      → let d' = (destroy_layer h d).1 in
        (find_layer other d'.layers ≡ (if other == h then none else find_layer other d.layers))
        × HandlesIsValid d'
  unfolding destroy_layer
  destroy_layer_lem d h other v = (
    find_layer-erase h other d.layers v.sorted,
    record {
      sorted = erase_layer-IsSorted h d.layers v.sorted;
      below = erase_layer-All (λ k. k < d.layer_idx) h d.layers v.below;
    },
  )
