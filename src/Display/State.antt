-- ===== src/Display/State.antt =====
-- DrmHwcTwo::HwcDisplay: its state, and the operations on its layers.
use drm_hwcomposer.Base.{
  ℕ, ◌+◌, ◌%◌, ◌^◌, Bool, true, false, Option, none, some, List, [], ◌∷◌, map, ℤ, neg,
  if◌then◌else◌, ◌==◌, ltb, length,
}
use drm_hwcomposer.Resources.{Plane, Crtc}
use drm_hwcomposer.Planner.{Stage}
use drm_hwcomposer.Compositor.State.{Compositor}
use drm_hwcomposer.Display.Layer.{
  Error, no_error, HwcLayer, new_hwc_layer, CompositionType, accept_type_change, type_changed,
}

-- `std::map<hwc2_layer_t, HwcLayer>`: the layers in the order of their handles.
abbrev pub Layers : Type 0
Layers = List (ℕ × HwcLayer)

pub record Display (K : Type 0) : Type 0 where
  pub compositor : Compositor K
  pub crtc : Option Crtc
  pub planner : List Stage
  pub primary_planes : List Plane
  pub overlay_planes : List Plane
  pub layer_idx : ℕ
  pub layers : Layers
  pub client_layer : HwcLayer
  pub retire_fence : ℤ
  pub next_retire_fence : ℤ
  pub color_mode : ℤ
  pub frame_no : ℕ

-- `emplace` leaves a layer that is there.
unfoldable pub emplace_layer : ℕ → HwcLayer → Layers → Layers
emplace_layer h l [] = (h, l) ∷ []
emplace_layer h l ((k, m) ∷ rest) =
    let more = emplace_layer h l rest in
    if ltb h k then (h, l) ∷ (k, m) ∷ rest else if h == k then (k, m) ∷ rest else (k, m) ∷ more

unfoldable pub erase_layer : ℕ → Layers → Layers
erase_layer h [] = []
erase_layer h ((k, m) ∷ rest) =
    let more = erase_layer h rest in if h == k then rest else (k, m) ∷ more

unfoldable pub find_layer : ℕ → Layers → Option HwcLayer
find_layer h [] = none
find_layer h ((k, m) ∷ rest) = let more = find_layer h rest in if h == k then some m else more

-- A change of one layer through a pointer to it.
unfoldable pub change_layer : ℕ → (HwcLayer → HwcLayer) → Layers → Layers
change_layer h f [] = []
change_layer h f ((k, m) ∷ rest) =
    let more = change_layer h f rest in if h == k then (k, f m) ∷ rest else (k, m) ∷ more

abbrev pub each_layer : (HwcLayer → HwcLayer) → Layers → Layers
each_layer f = map (λ l. (l.0, f l.1))

module _ {K : Type 0} where
  -- CreateLayer: the error, the handle and the display. `layer_idx_` is a uint32_t.
  unfoldable pub create_layer : Display K → Error × ℕ × Display K
  unfolding emplace_layer
  create_layer d = (
    no_error,
    d.layer_idx,
    record d {
      layers = emplace_layer d.layer_idx new_hwc_layer d.layers;
      layer_idx = (d.layer_idx + 1) % 2 ^ 32;
    },
  )

  unfoldable pub destroy_layer : ℕ → Display K → Error × Display K
  unfolding erase_layer
  destroy_layer h d = (no_error, record d { layers = erase_layer h d.layers })

  unfoldable pub accept_display_changes : Display K → Error × Display K
  unfolding accept_type_change
  accept_display_changes d =
      (no_error, record d { layers = each_layer accept_type_change d.layers })

-- The loop of GetChangedCompositionTypes: the layers that changed with their validated types, as
-- many as the arrays hold, and the number of all that changed.
unfoldable pub changed_types : ℕ → ℕ → Layers → ℕ × List (ℕ × CompositionType)
unfolding type_changed
changed_types capacity num_changes [] = (num_changes, [])
changed_types capacity num_changes ((h, l) ∷ rest) =
    let more = changed_types capacity (num_changes + 1) rest in
    let same = changed_types capacity num_changes rest in
    if type_changed l
    then (if ltb num_changes capacity then (more.0, (h, l.validated_type) ∷ more.1) else more)
    else same

-- GetChangedCompositionTypes: `none` is a call with both arrays NULL, which only asks for their
-- size; `some n` one with arrays of `n` elements. The result is `*num_elements` and what is written.
unfoldable pub get_changed_composition_types :
    Option ℕ → Layers → Error × ℕ × List (ℕ × CompositionType)
unfolding changed_types
get_changed_composition_types none layers = (no_error, (changed_types 0 0 layers).0, [])
get_changed_composition_types (some n) layers = (no_error, n, (changed_types n 0 layers).1)

-- The loop of GetReleaseFences: the layers written with their fences, and whether the arrays were
-- too short, in which case the function returns at once.
unfoldable pub take_fences : ℕ → ℕ → Layers → Bool × List (ℕ × ℤ) × Layers
take_fences capacity num_layers [] = (false, [], [])
take_fences capacity num_layers ((h, l) ∷ rest) =
    let more = take_fences capacity (num_layers + 1) rest in
    if ltb capacity (num_layers + 1)
    then (true, [], (h, l) ∷ rest)
    else (more.0, (h, l.release_fence) ∷ more.1, (h, record l { release_fence = neg 1 }) ∷ more.2)

unfoldable pub get_release_fences : Option ℕ → Layers → Error × ℕ × List (ℕ × ℤ) × Layers
unfolding take_fences
get_release_fences none layers = (no_error, length layers, [], layers)
get_release_fences (some n) layers =
    let taken = take_fences n 0 layers in
    (no_error, if taken.0 then n else length layers, taken.1, taken.2)
