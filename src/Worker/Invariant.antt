-- ===== src/Worker/Invariant.antt =====
-- Who holds the worker's lock, and what a thread that waits may rely on.
use drm_hwcomposer.Base.{◌≡◌, ◌≢◌, Bool, true, false, Option, some, arith}
use drm_hwcomposer.Worker.{
  Owner, thread, exiter, Place, not_started, check, look, waiting, resumed, returned, Exiting,
  locked, notifying, joining, left, System, init_worker, wake_up, test_exit, finish_wait,
  after_wait, routine_locked, ask_exit, notify_exit, ThreadStep, WakeStep, by_wake, ExitStep, ask,
  notify, join, lock_exit, ClientStep, control, signal, Step, by_thread, by_exit, by_client,
  lock_client, call_exit, Reach, created, started, next, lock_loop, loop, lock_routine, routine,
  time_out, spurious, relock, resume, work,
}

abbrev pub holds_lock : Place → Bool
holds_lock check = true
holds_lock look = true
holds_lock (resumed ret) = true
holds_lock _ = false

abbrev pub is_waiting : Place → Bool
is_waiting waiting = true
is_waiting _ = false

-- The thread does not run, or no longer.
abbrev pub is_over : Place → Bool
is_over not_started = true
is_over returned = true
is_over _ = false

abbrev pub is_thread : Option Owner → Bool
is_thread (some thread) = true
is_thread _ = false

abbrev pub is_exiter : Option Owner → Bool
is_exiter (some exiter) = true
is_exiter _ = false

abbrev pub is_locked : Exiting → Bool
is_locked locked = true
is_locked _ = false

-- Exit has set `exit_` and has not returned.
abbrev pub is_asked : Exiting → Bool
is_asked notifying = true
is_asked joining = true
is_asked _ = false

pub record Inv (s : System) : Type 0 where
  pub thread_owns : holds_lock s.place ≡ is_thread s.owner
  pub exiter_owns : is_locked s.exiting ≡ is_exiter s.owner
  pub told : is_asked s.exiting ≡ true → (s.exit ≡ true) × (s.initialized ≡ true)
  pub notified : s.exiting ≡ joining → is_waiting s.place ≡ false
  pub running : s.initialized ≡ true → s.place ≢ not_started
  pub stopped : s.initialized ≡ false → is_over s.place ≡ true
  pub over : s.exiting ≡ left → s.initialized ≡ false

ThreadStep-Inv : {s t : System} → ThreadStep s t → Inv s → Inv t
unfolding test_exit routine_locked finish_wait after_wait
ThreadStep-Inv (lock_loop p o) inv = ground arith
ThreadStep-Inv (loop p) inv = ground arith
ThreadStep-Inv (lock_routine p o) inv = ground arith
ThreadStep-Inv (routine p) inv = ground arith
ThreadStep-Inv (relock ret p o) inv = ground arith
ThreadStep-Inv (resume ret p) inv = ground arith
ThreadStep-Inv (work p) inv = ground arith

WakeStep-Inv : {s t : System} → WakeStep s t → Inv s → Inv t
WakeStep-Inv (time_out p h) inv = ground arith
WakeStep-Inv (spurious p) inv = ground arith

ExitStep-Inv : {s t : System} → ExitStep s t → Inv s → Inv t
unfolding ask_exit notify_exit
ExitStep-Inv (lock_exit e o) inv = ground arith
ExitStep-Inv (ask e) inv = ground arith
ExitStep-Inv (notify e) inv = ground arith
ExitStep-Inv (join e p) inv = ground arith

ClientStep-Inv : {s t : System} → ClientStep s t → Inv s → Inv t
unfolding wake_up
ClientStep-Inv (control enabled o) inv = ground arith
ClientStep-Inv (signal n e) inv = ground arith

Step-Inv : {s t : System} → Step s t → Inv s → Inv t
Step-Inv (by_thread st) inv = ThreadStep-Inv st inv
Step-Inv (by_wake st) inv = WakeStep-Inv st inv
Step-Inv (by_exit st) inv = ExitStep-Inv st inv
Step-Inv (by_client st) inv = ClientStep-Inv st inv
Step-Inv (lock_client o) inv = ground arith
Step-Inv (call_exit e) inv = ground arith

-- In every state that a worker comes to, the lock is held by whoever stands where it is held, a
-- thread that Exit waits for has been told, and Exit leaves no thread behind.
pub Reach-Inv : {timed : Bool} {s : System} → Reach timed s → Inv s
unfolding init_worker
Reach-Inv created = ground arith
Reach-Inv started = ground arith
Reach-Inv (next r st) = Step-Inv st (Reach-Inv r)
