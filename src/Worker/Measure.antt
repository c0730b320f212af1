-- ===== src/Worker/Measure.antt =====
-- How far the worker's thread and Exit are from their end, once Exit has set `exit_`.
use drm_hwcomposer.Base.{refl, ◌⊎◌, inl, inr, ℕ, ◌+◌, ◌≤◌, ◌<◌, ◌≡◌, true, arith}
use drm_hwcomposer.Worker.{
  Place, not_started, top, check, enter, look, waiting, woken, resumed, working, returned, Exiting,
  notifying, joining, left, System, wake_up, test_exit, finish_wait, after_wait, routine_locked,
  ask_exit, notify_exit, ThreadStep, WakeStep, ExitStep, ask, notify, join, lock_exit, ClientStep,
  control, signal, lock_loop, loop, lock_routine, routine, time_out, spurious, relock, resume, work,
}
use drm_hwcomposer.Worker.Invariant.{Inv, is_asked}

-- How many steps the thread is away from its return, once it has been asked.
abbrev weight : Place → ℕ
weight not_started = 0
weight returned = 0
weight check = 1
weight top = 2
weight working = 3
weight look = 4
weight (resumed ret) = 3
weight enter = 5
weight (woken ret) = 4
weight waiting = 5

abbrev stage : Exiting → ℕ
stage notifying = 2
stage joining = 1
stage _ = 0

abbrev pub measure : System → ℕ
measure s = weight s.place + stage s.exiting

weight-wake_up : (p : Place) → weight (wake_up p) ≤ weight p
unfolding wake_up
weight-wake_up waiting = omega arith
weight-wake_up _ = omega arith

pub ThreadStep-measure :
    {s t : System} → ThreadStep s t → is_asked s.exiting ≡ true → Inv s → measure t < measure s
unfolding test_exit routine_locked finish_wait after_wait
ThreadStep-measure (lock_loop p o) h inv = ground arith
ThreadStep-measure (loop p) h inv = ground arith
ThreadStep-measure (lock_routine p o) h inv = ground arith
ThreadStep-measure (routine p) h inv = ground arith
ThreadStep-measure (relock ret p o) h inv = ground arith
ThreadStep-measure (resume ret p) h inv = ground arith
ThreadStep-measure (work p) h inv = ground arith

pub WakeStep-measure : {s t : System} → WakeStep s t → measure t ≤ measure s
WakeStep-measure (time_out p timed) = ground arith
WakeStep-measure (spurious p) = ground arith

pub ExitStep-measure :
    {s t : System} → ExitStep s t → is_asked s.exiting ≡ true → measure t < measure s
unfolding ask_exit notify_exit
ExitStep-measure (lock_exit e o) h = ground arith
ExitStep-measure (ask e) h = ground arith
ExitStep-measure {s} (notify e) h = ground (arith, weight-wake_up s.place)
ExitStep-measure (join e p) h = ground arith

pub ClientStep-measure : {s t : System} → ClientStep s t → measure t ≤ measure s
ClientStep-measure (control enabled o) = omega arith
ClientStep-measure {s} (signal n e) = omega (arith, weight-wake_up s.place)

pub measure-le : (s : System) → measure s ≤ 7
measure-le s = ground arith

-- Whether Exit still waits behind a step.
pub ThreadStep-asks :
    {s t : System} → ThreadStep s t → is_asked s.exiting ≡ true → is_asked t.exiting ≡ true
unfolding test_exit routine_locked finish_wait after_wait
ThreadStep-asks (lock_loop p o) h = h
ThreadStep-asks (loop p) h = ground arith
ThreadStep-asks (lock_routine p o) h = h
ThreadStep-asks (routine p) h = ground arith
ThreadStep-asks (relock ret p o) h = h
ThreadStep-asks (resume ret p) h = ground arith
ThreadStep-asks (work p) h = h

pub ExitStep-asks :
    {s t : System}
    → ExitStep s t
    → is_asked s.exiting ≡ true
    → (is_asked t.exiting ≡ true) ⊎ (t.exiting ≡ left)
unfolding notify_exit
ExitStep-asks (lock_exit e o) h = absurd (ground arith)
ExitStep-asks (ask e) h = absurd (ground arith)
ExitStep-asks (notify e) h = inl refl
ExitStep-asks (join e p) h = inr refl

pub WakeStep-asks :
    {s t : System} → WakeStep s t → is_asked s.exiting ≡ true → is_asked t.exiting ≡ true
WakeStep-asks (time_out p timed) h = h
WakeStep-asks (spurious p) h = h

pub ClientStep-asks :
    {s t : System} → ClientStep s t → is_asked s.exiting ≡ true → is_asked t.exiting ≡ true
ClientStep-asks (control enabled l) h = h
ClientStep-asks (signal n e) h = h
