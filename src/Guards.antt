-- ===== src/Guards.antt =====
-- autofd.h, autolock.h and autolock.cpp: owners of a file descriptor and of a locked mutex.
pub mod Ownership
use drm_hwcomposer.Base.{
  Bool, true, false, not, Option, none, some, List, [], ◌∷◌, ℤ, pos, neg, einval, if◌then◌else◌,
  is_neg, is_set,
}

-- UniqueFd. An operation returns the descriptors that it closes, in order.
pub record UniqueFd : Type 0 where
  pub fd : ℤ

abbrev pub empty_fd : UniqueFd
empty_fd = record { fd = neg 1 }

unfoldable pub destroy : UniqueFd → List ℤ
destroy u = if is_neg u.fd then [] else u.fd ∷ []

unfoldable pub release : UniqueFd → ℤ × UniqueFd
release u = (u.fd, record { fd = neg 1 })

unfoldable pub set_fd : ℤ → UniqueFd → List ℤ × UniqueFd
unfolding destroy
set_fd fd u = (destroy u, record { fd = fd })

unfoldable pub close : UniqueFd → List ℤ × UniqueFd
unfolding destroy
close u = (destroy u, record { fd = neg 1 })

-- Move assignment, `lhs = std::move(rhs)`: what is closed, and then both sides.
unfoldable pub move_assign : UniqueFd → UniqueFd → List ℤ × UniqueFd × UniqueFd
unfolding set_fd release
move_assign lhs rhs = let out = release rhs in let set = set_fd out.0 lhs in (set.0, set.1, out.1)

-- AutoLock over a mutex; `ret` is what the pthread call returns. The destructor unlocks.
pub record AutoLock : Type 0 where
  pub locked : Bool

unfoldable pub lock : ℤ → AutoLock → ℤ × AutoLock
lock ret a =
    if a.locked
    then (einval, a)
    else if is_set ret
    then (ret, a)
    else (pos 0, record { locked = true })

unfoldable pub unlock : ℤ → AutoLock → ℤ × AutoLock
unlock ret a =
    if not a.locked
    then (einval, a)
    else if is_set ret
    then (ret, a)
    else (pos 0, record { locked = false })

-- OutputFd: a place for a descriptor, with what stands there, or a null pointer.
pub record OutputFd : Type 0 where
  pub place : Option ℤ

abbrev pub no_output : OutputFd
no_output = record { place = none }

-- Set: what is closed, the descriptor that is returned, and the place; `none` is a write through a
-- null pointer.
unfoldable pub set_output : ℤ → OutputFd → Option (List ℤ × ℤ × OutputFd)
set_output fd o = elim o.place [
  | none ↦ none
  | some old ↦ some (if is_neg old then [] else old ∷ [], fd, record { place = some fd })
]

unfoldable pub has_place : OutputFd → Bool
has_place o = elim o.place [ none ↦ false | some fd ↦ true ]

-- The move assignment from another one, which closes nothing: both sides behind it.
unfoldable pub move_output : OutputFd → OutputFd × OutputFd
move_output rhs = (rhs, no_output)
