-- ===== src/Composition/Printed.antt =====
-- What DumpTransform prints of a transform (drmdisplaycomposition.cpp).
use Prim.Native.String.{String}
use text.Mathlib.Text.{◌==◌ as str_eq}
use drm_hwcomposer.Base.{
  ℕ, zero, suc, ◌<◌, ◌≡◌, refl, Bool, true, false, ◌||◌, Option, none, some, if◌then◌else◌, [], ◌∷◌,
  has_bit, arith,
}
use drm_hwcomposer.Composition.Dump.{literal, number, Stream, dump_transform}

-- The stream has the text as one of its pieces.
abbrev pub prints : String → Stream → Bool
prints t [] = false
prints t (literal s ∷ rest) = str_eq s t || prints t rest
prints t (number n ∷ rest) = prints t rest

abbrev same : Bool → Bool → Bool
same true b = b
same false true = false
same false false = true

same-eq : (a b : Bool) → same a b ≡ true → a ≡ b
same-eq a b h = ground arith

-- The last number under a bound for which a test fails.
failure : (ℕ → Bool) → ℕ → Option ℕ
failure test zero = none
failure test (suc bound) =
    let earlier = failure test bound in if test bound then earlier else some bound

failure-none :
    (test : ℕ → Bool) (t bound : ℕ) → t < bound → failure test bound ≡ none → test t ≡ true
unfolding failure
failure-none test t zero l clear = absurd (omega arith)
failure-none test t (suc bound) l clear = ground (arith, failure-none test t bound)

-- A name is printed exactly where its bit is set.
abbrev shows : String → ℕ → ℕ → Bool
shows name k t = same (prints name (dump_transform t)) (has_bit t k)

shows-all :
    (name : String) (k t : ℕ)
    → failure (shows name k) 32 ≡ none
    → t < 32
    → prints name (dump_transform t) ≡ has_bit t k
shows-all name k t h l = same-eq _ _ (failure-none (shows name k) t 32 l h)

-- Of a transform, which has five bits, the text names each bit that is set and no other; but it also
-- says that the transform is invalid exactly where the vertical flip is set.
pub dump_transform-names :
    (t : ℕ)
    → t < 32
    → (prints "FLIPH" (dump_transform t) ≡ has_bit t 0)
      × (prints "FLIPV" (dump_transform t) ≡ has_bit t 1)
      × (prints "ROTATE90" (dump_transform t) ≡ has_bit t 2)
      × (prints "ROTATE180" (dump_transform t) ≡ has_bit t 3)
      × (prints "ROTATE270" (dump_transform t) ≡ has_bit t 4)
      × (prints "INVALID" (dump_transform t) ≡ has_bit t 1)
unfolding failure dump_transform
dump_transform-names t l = (
  shows-all "FLIPH" 0 t refl l,
  shows-all "FLIPV" 1 t refl l,
  shows-all "ROTATE90" 2 t refl l,
  shows-all "ROTATE180" 3 t refl l,
  shows-all "ROTATE270" 4 t refl l,
  shows-all "INVALID" 1 t refl l,
)
