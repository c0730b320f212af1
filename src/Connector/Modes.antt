-- ===== src/Connector/Modes.antt =====
-- DrmConnector::UpdateModes: the modes after an update, against the kernel's list.
use drm_hwcomposer.Base.{
  find?-holds, ℕ, suc, ◌+◌, ◌≤◌, ◌<◌, ◌^◌, ◌≡◌, ◌⊎◌, inl, inr, true, none, some, List, [], ◌∷◌,
  length, arith, Option-cases,
}
use drm_hwcomposer.Mode.{Mode, ModeInfo, of_info, same_mode}
use drm_hwcomposer.Connector.{known_mode, new_modes, next_mode_id}

-- Modes that match the kernel's list in order: each is the mode that was known before and equals the
-- kernel's one, or, where there was none, equals it under an id above `low` and those in front of
-- it. All the ids that were given out are at most `high`.
abbrev pub IsUpdated : List Mode → ℕ → ℕ → List Mode → List ModeInfo → Type 0
IsUpdated modes low high [] [] = low ≤ high
IsUpdated modes low high [] (m ∷ ms) = ⊥
IsUpdated modes low high (a ∷ found) [] = ⊥
IsUpdated modes low high (a ∷ found) (m ∷ ms) =
    (same_mode a m ≡ true)
    × (((known_mode modes m ≡ some a) × IsUpdated modes low high found ms)
        ⊎ ((known_mode modes m ≡ none) × (low < a.id) × IsUpdated modes a.id high found ms))

same_mode-of_info : (m : ModeInfo) (id : ℕ) → same_mode (record (of_info m) { id = id }) m ≡ true
unfolding same_mode of_info
same_mode-of_info m id = ground arith

next_above : (n : ℕ) → suc n < 2 ^ 32 → n < next_mode_id n
next_above n h = omega arith

next_room : (n k : ℕ) → suc n + k < 2 ^ 32 → next_mode_id n + k < 2 ^ 32
next_room n k h = omega arith

-- While the counter of ids does not wrap around, the update gives a list that matches the kernel's
-- in order: a mode that was known keeps its id, and a new one gets an id above all earlier ones.
pub new_modes-IsUpdated :
    (modes : List Mode) (mode_id : ℕ) (ms : List ModeInfo)
    → mode_id + length ms < 2 ^ 32
    → IsUpdated modes mode_id (new_modes modes mode_id ms).0 (new_modes modes mode_id ms).1 ms
unfolding new_modes known_mode
new_modes-IsUpdated modes mode_id [] h = omega arith
new_modes-IsUpdated modes mode_id (m ∷ ms) h = elim (Option-cases (known_mode modes m)) [
  | inl e ↦
      rw (e, new_modes)
        (
          same_mode-of_info m (next_mode_id mode_id),
          inr (
            e,
            next_above mode_id (omega arith),
            new_modes-IsUpdated modes (next_mode_id mode_id) ms
                (next_room mode_id (length ms) (omega arith)),
          ),
        )
  | inr (a, e) ↦
      rw (e, new_modes)
        (
          find?-holds {0} (λ mode. same_mode mode m) modes a e,
          inl (e, new_modes-IsUpdated modes mode_id ms (omega arith)),
        )
]
