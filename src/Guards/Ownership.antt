-- ===== src/Guards/Ownership.antt =====
-- UniqueFd as an owner: what becomes of the descriptors that it is given (autofd.h).
use drm_hwcomposer.Base.{
  ℕ, ◌+◌, ◌≡◌, true, false, negsuc, pos, List, [], ◌∷◌, ◌++◌, ℤ, ◌==ℤ◌, is_neg, count_if, arith,
  count_if-append,
}
use drm_hwcomposer.Guards.{UniqueFd, empty_fd, destroy, release, set_fd, close}

-- The calls on an owner.
pub data Call : Type 0 where
  set : ℤ → Call
  give_up : Call
  drop : Call

-- What is closed, what is handed out, and the owner afterwards.
abbrev pub Done : Type 0
Done = List ℤ × List ℤ × UniqueFd

abbrev pub call : Call → UniqueFd → Done
call (set fd) u = let done = set_fd fd u in (done.0, [], done.1)
call give_up u = let done = release u in ([], done.0 ∷ [], done.1)
call drop u = let done = close u in (done.0, [], done.1)

abbrev pub run : List Call → UniqueFd → Done
run [] u = ([], [], u)
run (c ∷ cs) u =
    let first = call c u in
    let rest = run cs first.2 in (first.0 ++ rest.0, first.1 ++ rest.1, rest.2)

abbrev pub given : List Call → List ℤ
given [] = []
given (set fd ∷ cs) = fd ∷ given cs
given (give_up ∷ cs) = given cs
given (drop ∷ cs) = given cs

abbrev pub times : ℤ → List ℤ → ℕ
times fd = count_if (λ x. x ==ℤ fd)

times-none : (fd x : ℤ) → is_neg fd ≡ false → is_neg x ≡ true → (x ==ℤ fd) ≡ false
times-none (pos m) (pos n) h k = ground arith
times-none (pos m) (negsuc n) h k = ground arith
times-none (negsuc m) x h k = ground arith

times-destroy :
    (fd : ℤ) (u : UniqueFd) → is_neg fd ≡ false → times fd (destroy u) ≡ times fd (u.fd ∷ [])
unfolding destroy
times-destroy fd u h = ground (arith, times-none fd u.fd h)

-- A descriptor is closed, handed out or still to be closed by the destructor exactly as often as
-- the owner held it in the beginning or was given it since: none is leaked, and none closed twice.
pub run-owns :
    (fd : ℤ) (cs : List Call) (u : UniqueFd)
    → is_neg fd ≡ false
    → times fd (run cs u).0 + times fd (run cs u).1 + times fd (destroy (run cs u).2)
      ≡ times fd (destroy u) + times fd (given cs)
unfolding set_fd release close destroy
run-owns fd [] u h = omega arith
run-owns fd (set x ∷ cs) u h = ground (
  arith,
  run-owns fd cs (record { fd = x }) h,
  count_if-append {0} (λ y. y ==ℤ fd) (destroy u) (run cs (record { fd = x })).0,
  times-destroy fd (record { fd = x }) h,
)
run-owns fd (give_up ∷ cs) u h = ground (
  arith,
  run-owns fd cs empty_fd h,
  times-destroy fd u h,
  times-destroy fd empty_fd h,
  times-none fd (negsuc 0) h,
)
run-owns fd (drop ∷ cs) u h = ground (
  arith,
  run-owns fd cs empty_fd h,
  count_if-append {0} (λ y. y ==ℤ fd) (destroy u) (run cs empty_fd).0,
  times-destroy fd empty_fd h,
  times-none fd (negsuc 0) h,
)
