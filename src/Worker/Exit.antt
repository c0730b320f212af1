-- ===== src/Worker/Exit.antt =====
-- Worker::Exit against the thread: it can always go on, it ends, and it leaves no thread behind.
use drm_hwcomposer.Base.{
  ℕ, zero, suc, ◌≤◌, ◌<◌, ◌≡◌, refl, Bool, true, false, ◌⊎◌, inl, inr, Option, none, some, arith,
}
use drm_hwcomposer.Worker.{
  Owner, thread, exiter, client, Place, not_started, top, check, enter, look, waiting, woken,
  resumed, working, returned, Exiting, away, called, locked, notifying, joining, left, System,
  ThreadStep, WakeStep, by_wake, ExitStep, ask, notify, join, lock_exit, Step, by_thread, by_exit,
  by_client, lock_client, call_exit, Reach, next, lock_loop, loop, lock_routine, routine, time_out,
  spurious, relock, resume, work,
}
use drm_hwcomposer.Worker.Measure.{
  ThreadStep-asks, ExitStep-asks, WakeStep-asks, ClientStep-asks, measure, ThreadStep-measure,
  WakeStep-measure, ExitStep-measure, ClientStep-measure, measure-le,
}
use drm_hwcomposer.Worker.Invariant.{Inv, is_asked, is_over, is_waiting, Reach-Inv}

-- Exit was called and has not returned.
abbrev pub is_pending : Exiting → Bool
is_pending away = false
is_pending left = false
is_pending _ = true

-- The thread or Exit has a step, or a caller of VSyncControl holds the lock, which it lets go of in
-- its next step.
abbrev pub GoesOn : System → Type 0
GoesOn s = ((t : System) × (ThreadStep s t ⊎ ExitStep s t)) ⊎ (s.owner ≡ some client)

-- A step that wants the lock, of one who does not hold it.
locks :
    (s : System) (o : Option Owner)
    → s.owner ≡ o
    → Inv s
    → (s.owner ≡ none → (t : System) × (ThreadStep s t ⊎ ExitStep s t))
    → (s.owner ≡ some thread → GoesOn s)
    → (s.exiting ≡ locked → ⊥)
    → GoesOn s
locks s none e inv free held out = inl (free e)
locks s (some thread) e inv free held out = held e
locks s (some exiter) e inv free held out = absurd (ground arith)
locks s (some client) e inv free held out = inr e

thread_goes :
    (s : System) (p : Place)
    → s.place ≡ p
    → Inv s
    → is_over p ≡ false
    → is_waiting p ≡ false
    → (s.exiting ≡ locked → ⊥)
    → GoesOn s
thread_goes s not_started e inv go awake out = absurd (ground arith)
thread_goes s top e inv go awake out =
    locks s s.owner refl inv (λ o. (_, inl (lock_loop e o))) (λ o. absurd (ground arith)) out
thread_goes s check e inv go awake out = inl (_, inl (loop e))
thread_goes s enter e inv go awake out =
    locks s s.owner refl inv (λ o. (_, inl (lock_routine e o))) (λ o. absurd (ground arith)) out
thread_goes s look e inv go awake out = inl (_, inl (routine e))
thread_goes s waiting e inv go awake out = absurd (ground arith)
thread_goes s (woken ret) e inv go awake out =
    locks s s.owner refl inv (λ o. (_, inl (relock ret e o))) (λ o. absurd (ground arith)) out
thread_goes s (resumed ret) e inv go awake out = inl (_, inl (resume ret e))
thread_goes s working e inv go awake out = inl (_, inl (work e))
thread_goes s returned e inv go awake out = absurd (ground arith)

-- The thread holds the lock.
holder_goes : (s : System) → Inv s → (s.exiting ≡ locked → ⊥) → s.owner ≡ some thread → GoesOn s
holder_goes s inv out o = thread_goes s s.place refl inv (ground arith) (ground arith) out

-- The thread that Exit joins has returned, or goes on.
joined_goes : (s : System) (p : Place) → s.place ≡ p → Inv s → s.exiting ≡ joining → GoesOn s
joined_goes s returned p inv e = inl (_, inr (join e p))
joined_goes s place p inv e = thread_goes s place p inv (ground arith) (ground arith) (ground arith)

exit_goes : (s : System) (e : Exiting) → s.exiting ≡ e → is_pending e ≡ true → Inv s → GoesOn s
exit_goes s called e h inv =
    locks s s.owner refl inv (λ o. (_, inr (lock_exit e o))) (holder_goes s inv (ground arith))
      (ground arith)
exit_goes s locked e h inv = inl (_, inr (ask e))
exit_goes s notifying e h inv = inl (_, inr (notify e))
exit_goes s joining e h inv = joined_goes s s.place refl inv e
exit_goes s away e h inv = absurd (ground arith)
exit_goes s left e h inv = absurd (ground arith)

-- There is no deadlock and no lost wake-up: whenever Exit was called and has not returned, the
-- thread or Exit has a step of its own, which is not that a wait times out or ends for no reason, or
-- a caller of VSyncControl holds the lock.
pub exit_progress :
    {timed : Bool} {s : System} → Reach timed s → is_pending s.exiting ≡ true → GoesOn s
exit_progress {s = s} r h = exit_goes s s.exiting refl h (Reach-Inv r)

asked_away : (s : System) (e : Exiting) → s.exiting ≡ e → is_asked e ≡ true → measure s ≤ 0 → ⊥
asked_away s notifying e h m = ground arith
asked_away s joining e h m = ground arith
asked_away s _ e h m = ground arith

-- A step of the thread or of Exit; the others are the callers of VSyncControl and of Exit, and a
-- wait that ends without a notification.
abbrev pub is_own : {s t : System} → Step s t → Bool
is_own (by_thread st) = true
is_own (by_exit st) = true
is_own _ = false

-- Any number of steps of the others.
pub data Others (s : System) : System → Type 0 where
  still : Others s s
  other : {t u : System} → Others s t → (st : Step t u) → is_own st ≡ false → Others s u

-- Exit returns within so many steps of the thread and of Exit: it has returned, or else, whatever
-- the others do first, GoesOn holds, and any step of the thread or of Exit leads nearer.
pub data Ends : ℕ → System → Type 0 where
  over : {n : ℕ} {s : System} → s.exiting ≡ left → Ends n s
  nearer :
      {n : ℕ} {s : System}
      → ((t : System) → Others s t → GoesOn t)
      → ((t u : System) → Others s t → ThreadStep t u ⊎ ExitStep t u → Ends n u)
      → Ends (suc n) s

Step-other :
    {s t : System} (st : Step s t)
    → is_own st ≡ false
    → is_asked s.exiting ≡ true
    → (is_asked t.exiting ≡ true) × (measure t ≤ measure s)
Step-other (by_thread st) o h = absurd (ground arith)
Step-other (by_exit st) o h = absurd (ground arith)
Step-other (by_wake st) o h = (WakeStep-asks st h, WakeStep-measure st)
Step-other (by_client st) o h = (ClientStep-asks st h, ClientStep-measure st)
Step-other (lock_client l) o h = (h, omega arith)
Step-other (call_exit e) o h = absurd (ground arith)

Others-asked :
    {timed : Bool} {s t : System}
    → Reach timed s
    → is_asked s.exiting ≡ true
    → Others s t
    → Reach timed t × (is_asked t.exiting ≡ true) × (measure t ≤ measure s)
Others-asked r h still = (r, h, omega arith)
Others-asked r h (other os st o) =
    let (rt, ht, m) = Others-asked r h os in
    let (hu, less) = Step-other st o ht in (next rt st, hu, omega arith)

-- A step of the thread or of Exit, once Exit has asked: it is nearer, and Exit waits or is over.
own_step :
    {timed : Bool} {s t : System}
    → Reach timed s
    → is_asked s.exiting ≡ true
    → ThreadStep s t ⊎ ExitStep s t
    → Reach timed t × ((is_asked t.exiting ≡ true) ⊎ (t.exiting ≡ left)) × (measure t < measure s)
own_step r h (inl st) =
    (next r (by_thread st), inl (ThreadStep-asks st h), ThreadStep-measure st h (Reach-Inv r))
own_step r h (inr st) = (next r (by_exit st), ExitStep-asks st h, ExitStep-measure st h)

asked-Ends :
    (n : ℕ) {timed : Bool} {s : System}
    → Reach timed s
    → (is_asked s.exiting ≡ true) ⊎ (s.exiting ≡ left)
    → measure s ≤ n
    → Ends n s
asked-Ends n r (inr e) m = over e
asked-Ends zero {s = s} r (inl h) m = absurd (asked_away s s.exiting refl h m)
asked-Ends (suc n) r (inl h) m =
    nearer (λ t os. let (rt, ht, k) = Others-asked r h os in exit_progress rt (ground arith))
      (λ t u os st.
        let (rt, ht, k) = Others-asked r h os in
        let (ru, on, less) = own_step rt ht st in asked-Ends n ru on (omega arith))

-- Exit ends: from the moment at which it has set `exit_`, whatever the callers of VSyncControl do
-- in between and though no wait times out or ends by itself, it returns within seven steps of the
-- thread and of Exit, and until then one of these can be taken or a caller of VSyncControl holds the
-- lock.
pub exit_terminates :
    {timed : Bool} {s : System} → Reach timed s → is_asked s.exiting ≡ true → Ends 7 s
exit_terminates {s = s} r h = asked-Ends 7 r (inl h) (measure-le s)

-- When Exit has returned, the worker is not initialised, and its thread takes no step
-- any more and is not woken.
pub exit_leaves :
    {timed : Bool} {s : System}
    → Reach timed s
    → s.exiting ≡ left
    → (s.initialized ≡ false) × ((t : System) → ThreadStep s t ⊎ WakeStep s t → ⊥)
exit_leaves {s = s} reach e = (
  gone e,
  λ t st. elim st [
    | inl own ↦ at_rest own (stopped (gone e))
    | inr wake ↦ awake wake (stopped (gone e))
  ],
)
  where
    open (Reach-Inv reach) use {over as gone, stopped}

    at_rest : {t : System} → ThreadStep s t → is_over s.place ≡ true → ⊥
    at_rest (lock_loop p o) h = ground arith
    at_rest (loop p) h = ground arith
    at_rest (lock_routine p o) h = ground arith
    at_rest (routine p) h = ground arith
    at_rest (relock ret p o) h = ground arith
    at_rest (resume ret p) h = ground arith
    at_rest (work p) h = ground arith

    awake : {t : System} → WakeStep s t → is_over s.place ≡ true → ⊥
    awake (time_out p timed) h = ground arith
    awake (spurious p) h = ground arith
