-- ===== src/Flatten/Countdown.antt =====
-- The vertical blanks behind a frame, up to its flattening.
use drm_hwcomposer.Base.{ℕ, zero, suc, ◌+◌, ◌≡◌, refl, true, Option, none, some, ℤ, pos, neg, arith}
use native.Mathlib.Nat.{add-zero}
use drm_hwcomposer.Kernel.{Kernel}
use drm_hwcomposer.Compositor.State.{countdown_expired}
use drm_hwcomposer.Flatten.State.{Flattener}
use drm_hwcomposer.Flatten.Idle.{Surroundings, count_down, flatten_active_composition, vsync}

-- The flattener with another countdown.
abbrev pub at_count : {K : Type 0} → ℤ → Flattener K → Flattener K
at_count c f = record f { compositor = record (f.compositor) { flatten_countdown = c } }

-- What an attempt comes to as the result of Vsync.
abbrev pub attempted : {K : Type 0} → Option (ℤ × Flattener K) → Option (Option ℤ × Flattener K)
attempted none = none
attempted (some (ret, f)) = some (some ret, f)

module _ {K : Type 0} (kernel wb_kernel : Kernel K) (w : Surroundings K) where
  -- `n` vertical blanks of which none makes an attempt; otherwise `none`.
  pub quiet : ℕ → Flattener K → Option (Flattener K)
  quiet zero f = some f
  quiet (suc n) f = elim (vsync kernel wb_kernel w f) [
    | none ↦ none
    | some (some ret, f') ↦ none
    | some (none, f') ↦ quiet n f'
  ]

  vsync-waits :
      (n : ℕ) (f : Flattener K)
      → vsync kernel wb_kernel w (at_count (pos (suc (suc n))) f)
        ≡ some (none, at_count (pos (suc n)) f)
  unfolding vsync count_down countdown_expired
  vsync-waits n f = ground arith

  quiet-waits :
      (n m : ℕ) (f : Flattener K)
      → quiet n (at_count (pos (suc (n + m))) f) ≡ some (at_count (pos (suc m)) f)
  unfolding quiet
  quiet-waits zero m f = ground arith
  quiet-waits (suc n) m f = ground (arith, vsync-waits (n + m) f, quiet-waits n m f)

  attempted-eq :
      (r : Option (ℤ × Flattener K))
      → (elim r [ none ↦ none | some (ret, f) ↦ some (some ret, f) ]) ≡ attempted r
  attempted-eq none = refl
  attempted-eq (some (ret, f)) = refl

  vsync-attempts :
      (c d : ℤ) (f : Flattener K)
      → count_down (at_count c f).compositor ≡ (true, (at_count d f).compositor)
      → vsync kernel wb_kernel w (at_count c f)
        ≡ attempted (flatten_active_composition kernel wb_kernel w (at_count d f))
  unfolding vsync
  vsync-attempts c d f h =
      rw (h, vsync) (attempted-eq (flatten_active_composition kernel wb_kernel w (at_count d f)))

  -- With a countdown of n + 1 the first n vertical blanks attempt nothing, and the next one attempts
  -- to flatten the active composition, at a countdown of 0. With a countdown of 0 or below, a blank
  -- attempts it again.
  pub vsync-flattens :
      (n c : ℕ) (f : Flattener K)
      → (quiet n (at_count (pos (suc n)) f) ≡ some (at_count (pos 1) f))
        × (vsync kernel wb_kernel w (at_count (pos 1) f)
            ≡ attempted (flatten_active_composition kernel wb_kernel w (at_count (pos 0) f)))
        × (vsync kernel wb_kernel w (at_count (neg c) f)
            ≡ attempted (flatten_active_composition kernel wb_kernel w (at_count (neg (suc c)) f)))
  unfolding count_down countdown_expired
  vsync-flattens n c f = (
    rw add-zero at (quiet-waits n 0 f),
    vsync-attempts (pos 1) (pos 0) f (ground arith),
    vsync-attempts (neg c) (neg (suc c)) f (ground arith),
  )
