-- ===== src/Uevent/Watching.antt =====
-- Which descriptors the listener's thread still waits on.
use drm_hwcomposer.Base.{
  ℕ, ◌≡◌, refl, Bool, true, false, List, [], ◌∷◌, ◌++◌, ◌&&◌, ◌⊎◌, inl, inr, arith, count_if,
  count_if-append,
}
use drm_hwcomposer.Uevent.Listener.{
  Watched, Selected, interrupted, failed, ready, Handler, drm_handle_event, uevent_handler,
  handlers, routine,
}

-- How often the messages of the kernel are read.
abbrev reads_messages : Handler → Bool
reads_messages drm_handle_event = false
reads_messages uevent_handler = true

abbrev pub message_reads : List Handler → ℕ
message_reads = count_if reads_messages

-- select leaves no descriptor in the set that was not in it.
abbrev pub Leaves : Watched → Selected → Type 0
Leaves fds interrupted = Unit
Leaves fds failed = Unit
Leaves fds (ready left) =
    (left.drm && fds.drm ≡ left.drm) × (left.uevent && fds.uevent ≡ left.uevent)

handlers-unwatched : (fds : Watched) → fds.uevent ≡ false → message_reads (handlers fds) ≡ 0
unfolding handlers
handlers-unwatched fds u = ground arith

reads-append :
    (fds : Watched) (rest : List Handler)
    → fds.uevent ≡ false
    → message_reads rest ≡ 0
    → message_reads (handlers fds ++ rest) ≡ 0
reads-append fds rest u r =
    let a = count_if-append {0} reads_messages (handlers fds) rest in
    let b = handlers-unwatched fds u in omega arith

unwatched-left :
    (fds left : Watched) → Leaves fds (ready left) → fds.uevent ≡ false → left.uevent ≡ false
unwatched-left fds left s u = ground (arith, s.1)

Selected-cases :
    (o : Selected) → (o ≡ interrupted) ⊎ ((o ≡ failed) ⊎ ((left : Watched) × (o ≡ ready left)))
Selected-cases interrupted = inl refl
Selected-cases failed = inr (inl refl)
Selected-cases (ready left) = inr (inr (left, refl))

module _ {E : Type 0} (select : E → Watched → Selected)
    (subset : (e : E) (fds : Watched) → Leaves fds (select e fds)) where
  routine-unwatched :
      (es : List E) (fds : Watched)
      → fds.uevent ≡ false
      → message_reads (routine select es fds).0 ≡ 0
  unfolding routine
  routine-unwatched [] fds u = refl
  routine-unwatched (e ∷ es) fds u = elim (Selected-cases (select e fds)) [
    | inl s ↦ rw (s, routine) (routine-unwatched es fds u)
    | inr (inl s) ↦
        rw (s, routine) (reads-append fds (routine select es fds).0 u (routine-unwatched es fds u))
    | inr (inr (left, s)) ↦
        let v = unwatched-left fds left (rw s at (subset e fds)) u in
        rw (s, routine)
          (reads-append left (routine select es left).0 v (routine-unwatched es left v))
  ]

  -- Behind the first round of the routine in which select leaves the uevent socket out of the set,
  -- because no message has come, no message of the kernel is ever read, whatever events there are.
  pub routine-forgets :
      (e : E) (es : List E) (fds left : Watched)
      → select e fds ≡ ready left
      → left.uevent ≡ false
      → message_reads (routine select (e ∷ es) fds).0 ≡ 0
  unfolding routine
  routine-forgets e es fds left s u =
      rw (s, routine) (reads-append left (routine select es left).0 u (routine-unwatched es left u))
