-- ===== src/Importer/Handles.antt =====
-- The handles that ReleaseBuffer closes (platformdrmgeneric.cpp).
use drm_hwcomposer.Base.{
  ℕ, zero, suc, ◌≡◌, ◌≢◌, refl, false, List, [], ◌∷◌, ℤ, arith, length, count_if, min, is_set, ◌==◌,
}
use drm_hwcomposer.Importer.{forget, close_handles}

abbrev pub uses : ℕ → List ℕ → ℕ
uses x = count_if (λ h. h == x)

uses-forget_eq : (x : ℕ) (hs : List ℕ) → x ≢ 0 → uses x (forget x hs) ≡ 0
unfolding forget
uses-forget_eq x [] n = refl
uses-forget_eq x (h ∷ hs) n = ground (arith, uses-forget_eq x hs n)

uses-forget_ne : (x y : ℕ) (hs : List ℕ) → x ≢ 0 → y ≢ x → uses x (forget y hs) ≡ uses x hs
unfolding forget
uses-forget_ne x y [] n k = refl
uses-forget_ne x y (h ∷ hs) n k = ground (arith, uses-forget_ne x y hs n k)

length-forget : (x : ℕ) (hs : List ℕ) → length (forget x hs) ≡ length hs
unfolding forget
length-forget x [] = refl
length-forget x (h ∷ hs) = omega (arith, length-forget x hs)

-- When no close fails, ReleaseBuffer closes every handle that the buffer object names exactly once,
-- however often the planes of the object share it, and the object names none of them any more.
pub close_handles_lem :
    (ioctl : ℕ → ℤ) (hs : List ℕ) (n x : ℕ)
    → ((h : ℕ) → is_set (ioctl h) ≡ false)
    → length hs ≡ n
    → x ≢ 0
    → (uses x (close_handles ioctl hs n).0 ≡ min 1 (uses x hs))
      × (uses x (close_handles ioctl hs n).1 ≡ 0)
unfolding close_handles
close_handles_lem ioctl [] zero x ok e k = (omega arith, refl)
close_handles_lem ioctl [] (suc n) x ok e k = absurd (omega (arith, e))
close_handles_lem ioctl (h ∷ hs) zero x ok e k = absurd (omega (arith, e))
close_handles_lem ioctl (h ∷ hs) (suc n) x ok e k = ground (
  arith,
  ok h,
  length-forget h hs,
  uses-forget_eq x hs k,
  uses-forget_ne x h hs k,
  close_handles_lem ioctl hs n x ok,
  close_handles_lem ioctl (forget h hs) n x ok,
)
