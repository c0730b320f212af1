-- ===== src/Display/Changes.antt =====
-- What SurfaceFlinger learns of the types after ValidateDisplay: GetChangedCompositionTypes,
-- AcceptDisplayChanges and `*num_types`.
use drm_hwcomposer.Base.{
  ℕ, zero, suc, ◌+◌, ◌≤◌, ◌≡◌, refl, ap, ◌∙◌, Bool, true, false, none, some, List, [], ◌∷◌, length,
  arith, map, take, select,
}
use drm_hwcomposer.Kernel.{Kernel}
use drm_hwcomposer.Display.Layer.{
  Error, no_error, HwcLayer, CompositionType, type_changed, accept_type_change, set_validated_type,
}
use drm_hwcomposer.Display.State.{
  Layers, Display, each_layer, changed_types, get_changed_composition_types, accept_display_changes,
}
use drm_hwcomposer.Display.Compose.{Platform}
use drm_hwcomposer.Display.Validate.{settle_types, assign_types, validate_display, is_failure}
use drm_hwcomposer.Display.Counts.{sf_clients}
use drm_hwcomposer.Display.Fit.{validate_display_run}

abbrev pub changed : ℕ × HwcLayer → Bool
changed l = type_changed l.1

abbrev pub change_of : ℕ × HwcLayer → ℕ × CompositionType
change_of l = (l.0, l.1.validated_type)

-- All the layers whose type changed, in the order of their handles.
abbrev pub changes : Layers → List (ℕ × CompositionType)
changes layers = map change_of (select changed layers)

changed_types-number :
    (capacity n : ℕ) (layers : Layers)
    → (changed_types capacity n layers).0 ≡ n + length (changes layers)
unfolding changed_types
changed_types-number capacity n [] = omega arith
changed_types-number capacity n (l ∷ rest) =
    ground (arith, changed_types-number capacity n rest, changed_types-number capacity (n + 1) rest)

changed_types-full :
    (capacity n : ℕ) (layers : Layers) → capacity ≤ n → (changed_types capacity n layers).1 ≡ []
unfolding changed_types
changed_types-full capacity n [] h = refl
changed_types-full capacity n (l ∷ rest) h =
    ground (arith, changed_types-full capacity n rest, changed_types-full capacity (n + 1) rest)

changed_types-list :
    (room capacity n : ℕ) (layers : Layers)
    → capacity ≡ n + room
    → (changed_types capacity n layers).1 ≡ take room (changes layers)
unfolding changed_types
changed_types-list zero capacity n layers h = changed_types-full capacity n layers (omega arith)
changed_types-list (suc room) capacity n [] h = refl
changed_types-list (suc room) capacity n (l ∷ rest) h = ground (
  arith,
  changed_types-list (suc room) capacity n rest,
  changed_types-list room capacity (n + 1) rest,
)

-- GetChangedCompositionTypes, asked for the size, gives the number of the layers whose type changed;
-- with arrays of `n` elements it writes the first `n` of them, in the order of their handles, each
-- with its validated type, and leaves the size as it was.
pub get_changed_composition_types_lem :
    (n : ℕ) (layers : Layers)
    → (get_changed_composition_types none layers ≡ (no_error, length (changes layers), []))
      × (get_changed_composition_types (some n) layers ≡ (no_error, n, take n (changes layers)))
unfolding get_changed_composition_types
get_changed_composition_types_lem n layers = (
  rw (changed_types-number 0 0 layers) (ground arith),
  rw (changed_types-list n n 0 layers (omega arith)),
)

changes-accepted : (layers : Layers) → changes (each_layer accept_type_change layers) ≡ []
unfolding accept_type_change type_changed
changes-accepted [] = refl
changes-accepted ((h, l) ∷ rest) = ground (arith, changes-accepted rest)

-- Once SurfaceFlinger has accepted the changes, none is reported any more.
pub accept_display_changes-settles :
    {K : Type 0} (d : Display K)
    → get_changed_composition_types none (accept_display_changes d).1.layers ≡ (no_error, 0, [])
unfolding accept_display_changes
accept_display_changes-settles d =
    (get_changed_composition_types_lem 0 (each_layer accept_type_change d.layers)).0
    ∙ ap (λ (ls : List (ℕ × CompositionType)). (no_error, length ls, []))
        (changes-accepted d.layers)

settle_types-changes :
    (layers : Layers)
    → length (changes (settle_types layers).1) + sf_clients (settle_types layers).1
      ≡ (settle_types layers).0
unfolding settle_types set_validated_type type_changed
settle_types-changes [] = refl
settle_types-changes ((h, l) ∷ rest) = ground (arith, settle_types-changes rest)

assign_types-changes :
    (failed : Bool) (planes : ℕ) (layers : Layers)
    → length (changes (assign_types failed planes layers).1)
        + sf_clients (assign_types failed planes layers).1
      ≡ (assign_types failed planes layers).0
unfolding assign_types
assign_types-changes true planes layers = settle_types-changes layers
assign_types-changes false planes layers = settle_types-changes _

-- `*num_types` of ValidateDisplay is the number of changes that GetChangedCompositionTypes reports
-- afterwards, and on top of it the number of the layers for which SurfaceFlinger itself had asked
-- for Client, whose type does not change.
pub validate_display-changes :
    {K : Type 0} (kernel : Kernel K) (platform : Platform) (d d' : Display K) (e : Error)
    (num_types num_requests : ℕ)
    → validate_display kernel platform d ≡ some (e, num_types, num_requests, d')
    → num_types ≡ (get_changed_composition_types none d'.layers).1 + sf_clients d'.layers
validate_display-changes kernel platform d d' e num_types num_requests run =
    let (failed, d1, _, n, l, _) =
      validate_display_run kernel platform d d' e num_types num_requests run in
    let planes = length d.primary_planes + length d.overlay_planes in
    omega (
      arith,
      n,
      assign_types-changes (is_failure failed) planes d1.layers,
      ap (λ (ls : Layers). length (changes ls) + sf_clients ls) l,
      ap (λ (r : Error × ℕ × List (ℕ × CompositionType)). r.1)
          (get_changed_composition_types_lem 0 d'.layers).0,
    )
