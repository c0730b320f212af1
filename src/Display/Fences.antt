-- ===== src/Display/Fences.antt =====
-- The release fences that SurfaceFlinger takes after a frame: GetReleaseFences.
use drm_hwcomposer.Base.{
  ℕ, zero, suc, ◌+◌, ◌≡◌, refl, some, [], ◌∷◌, ℤ, neg, arith, length, map, take, ltb, min,
}
use drm_hwcomposer.Display.Layer.{no_error, HwcLayer}
use drm_hwcomposer.Display.State.{Layers, take_fences, get_release_fences}

abbrev pub fence_of : ℕ × HwcLayer → ℕ × ℤ
fence_of l = (l.0, l.1.release_fence)

abbrev pub without_fence : HwcLayer → HwcLayer
without_fence l = record l { release_fence = neg 1 }

-- The first layers lose their fences.
abbrev pub clear_first : ℕ → Layers → Layers
clear_first zero layers = layers
clear_first (suc n) [] = []
clear_first (suc n) (l ∷ rest) = (l.0, without_fence l.1) ∷ clear_first n rest

take_fences_lem :
    (room capacity num_layers : ℕ) (layers : Layers)
    → capacity ≡ num_layers + room
    → let taken = take_fences capacity num_layers layers in
      (taken.0 ≡ ltb room (length layers))
      × (taken.1 ≡ map fence_of (take room layers))
      × (taken.2 ≡ clear_first room layers)
unfolding take_fences
take_fences_lem zero capacity num_layers [] e = (refl, refl, refl)
take_fences_lem (suc room) capacity num_layers [] e = (ground arith, refl, refl)
take_fences_lem zero capacity num_layers (l ∷ rest) e = ground arith
take_fences_lem (suc room) capacity num_layers (l ∷ rest) e =
    let (a, b, c) = take_fences_lem room capacity (num_layers + 1) rest (omega arith) in
    (ground (arith, a), ground (arith, b), ground (arith, c))

length-taken :
    (n : ℕ) (layers : Layers) → length (map fence_of (take n layers)) ≡ min n (length layers)
length-taken zero layers = omega arith
length-taken (suc n) [] = omega arith
length-taken (suc n) (l ∷ rest) = omega (arith, length-taken n rest)

-- GetReleaseFences with arrays of `n` elements hands out the fences of the first `n` layers, each
-- once: the layers keep none of them, the layers behind keep theirs, and the number that is
-- reported is that of the fences that were written.
pub get_release_fences_lem :
    (n : ℕ) (layers : Layers)
    → get_release_fences (some n) layers ≡ (
      no_error,
      length (map fence_of (take n layers)),
      map fence_of (take n layers),
      clear_first n layers,
    )
unfolding get_release_fences
get_release_fences_lem n layers =
    let (a, b, c) = take_fences_lem n n 0 layers (omega arith) in
    rw (a, b, c) (ground (arith, length-taken n layers))
