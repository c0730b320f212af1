-- ===== src/Mode/Convert.antt =====
-- The conversions between a display mode and the kernel's description of one (drmmode.cpp).
use drm_hwcomposer.Base.{ℕ, zero, suc, ◌^◌, ◌<◌, ◌≡◌, ◌≢◌, refl, List, [], ◌∷◌, arith}
use drm_hwcomposer.Mode.{Mode, ModeInfo, of_info, c_string, strncpy, display_mode_len}

-- The members fit the fields of 16 bits.
pub record IsNarrow (a : Mode) : Type 0 where
  pub h_display : a.h_display < 2 ^ 16
  pub h_sync_start : a.h_sync_start < 2 ^ 16
  pub h_sync_end : a.h_sync_end < 2 ^ 16
  pub h_total : a.h_total < 2 ^ 16
  pub h_skew : a.h_skew < 2 ^ 16
  pub v_display : a.v_display < 2 ^ 16
  pub v_sync_start : a.v_sync_start < 2 ^ 16
  pub v_sync_end : a.v_sync_end < 2 ^ 16
  pub v_total : a.v_total < 2 ^ 16
  pub v_scan : a.v_scan < 2 ^ 16

-- An array of a size, with NULs alone from its first NUL on.
abbrev pub IsPadded : ℕ → List ℕ → Type 0
IsPadded zero bs = bs ≡ []
IsPadded (suc n) [] = ⊥
IsPadded (suc n) (zero ∷ bs) = IsPadded n bs × (c_string bs ≡ [])
IsPadded (suc n) (suc b ∷ bs) = IsPadded n bs

-- A string without a NUL.
abbrev pub HasNoNul : List ℕ → Type 0
HasNoNul [] = Unit
HasNoNul (b ∷ bs) = (b ≢ 0) × HasNoNul bs

c_string-zeros : (n : ℕ) → c_string (strncpy n []) ≡ []
unfolding strncpy c_string
c_string-zeros zero = refl
c_string-zeros (suc n) = refl

-- A description whose fields have 16 bits.
pub record IsReported (m : ModeInfo) : Type 0 where
  pub narrow : IsNarrow (of_info m)
  pub padded : IsPadded display_mode_len m.name

-- Every array that `strncpy` fills is one.
pub strncpy-IsPadded : (n : ℕ) (bs : List ℕ) → IsPadded n (strncpy n bs)
unfolding strncpy
strncpy-IsPadded zero bs = refl
strncpy-IsPadded (suc n) [] = (strncpy-IsPadded n [], c_string-zeros n)
strncpy-IsPadded (suc n) (zero ∷ bs) = (strncpy-IsPadded n [], c_string-zeros n)
strncpy-IsPadded (suc n) (suc b ∷ bs) = ground (arith, strncpy-IsPadded n bs)
