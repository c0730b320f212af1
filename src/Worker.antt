-- ===== src/Worker.antt =====
-- worker.h and worker.cpp: a thread that repeats a routine until it is asked to exit, with the
-- routine of the vsync worker (vsyncworker.cpp) as far as it uses the lock and the condition.
pub mod Invariant
pub mod Measure
pub mod Exit
use drm_hwcomposer.Base.{
  ℕ, suc, ◌≡◌, Bool, true, false, Option, none, some, ℤ, pos, eintr, etimedout, ealready,
  if◌then◌else◌, ◌==ℤ◌,
}

-- Who holds `mutex_`.
pub data Owner : Type 0 where
  thread : Owner
  exiter : Owner
  client : Owner

-- Where the thread stands. It holds the lock at `check`, `look` and `resumed`, which carries what
-- the wait returned.
pub data Place : Type 0 where
  not_started : Place
  top : Place  -- head of the loop in InternalRoutine
  check : Place
  enter : Place  -- start of Routine
  look : Place
  waiting : Place  -- in `cond_.wait`, which has let go of the lock
  woken : ℤ → Place  -- before `cond_.wait` has the lock again
  resumed : ℤ → Place
  working : Place  -- behind the Unlock of Routine
  returned : Place

-- Where the call of Exit stands.
pub data Exiting : Type 0 where
  away : Exiting
  called : Exiting  -- before the lock
  locked : Exiting
  notifying : Exiting  -- before `notify_all`
  joining : Exiting
  left : Exiting

-- The members, the lock, and where everyone stands. `timed` says that Routine waits with a timeout,
-- and `signals` counts the calls of VSyncControl between their Unlock and their Signal.
pub record System : Type 0 where
  pub exit : Bool
  pub initialized : Bool
  pub enabled : Bool
  pub timed : Bool
  pub owner : Option Owner
  pub place : Place
  pub exiting : Exiting
  pub signals : ℕ

-- The constructor.
abbrev pub create : Bool → System
create timed = record {
  exit = false;
  initialized = false;
  enabled = false;
  timed = timed;
  owner = none;
  place = not_started;
  exiting = away;
  signals = 0;
}

-- InitWorker, which takes the lock for all of its body.
unfoldable pub init_worker : System → ℤ × System
init_worker s =
    if s.initialized
    then (ealready, s)
    else (pos 0, record s { initialized = true; exit = false; place = top })

-- `cond_.notify_all` as the thread sees it.
unfoldable pub wake_up : Place → Place
wake_up waiting = woken (pos 0)
wake_up not_started = not_started
wake_up top = top
wake_up check = check
wake_up enter = enter
wake_up look = look
wake_up (woken ret) = woken ret
wake_up (resumed ret) = resumed ret
wake_up working = working
wake_up returned = returned

-- The loop's test, with the unlock that follows it or that the guard's destructor makes.
unfoldable pub test_exit : System → System
test_exit s = record s { place = if s.exit then returned else enter; owner = none }

-- WaitForSignalOrExitLocked up to its wait: what it returns at once.
unfoldable pub begin_wait : System → Option ℤ
begin_wait s = if s.exit then some eintr else none

-- WaitForSignalOrExitLocked behind its wait.
unfoldable pub finish_wait : ℤ → System → ℤ
finish_wait ret s = if s.exit then eintr else ret

-- Routine from the reading of `enabled_` on, to its Unlock.
unfoldable pub read_enabled : System → System
read_enabled s = record s { place = if s.enabled then working else top; owner = none }

-- Routine behind the wait.
unfoldable pub after_wait : ℤ → System → System
unfolding read_enabled
after_wait ret s = if ret ==ℤ eintr then record s { place = top; owner = none } else read_enabled s

-- Routine with the lock taken.
unfoldable pub routine_locked : System → System
unfolding begin_wait after_wait read_enabled
routine_locked s = if s.enabled then read_enabled s else elim (begin_wait s) [
  | some ret ↦ after_wait ret s
  | none ↦ record s { place = waiting; owner = none }
]

-- Exit with the lock taken: it goes on to notify the thread, or returns.
unfoldable pub ask_exit : System → System
ask_exit s = record s {
  exit = true;
  exiting = if s.initialized then notifying else left;
  owner = none;
}

-- Exit behind its unlock: `notify_all`, and on to the join.
unfoldable pub notify_exit : System → System
unfolding wake_up
notify_exit s = record s { place = wake_up s.place; exiting = joining }

-- The thread's own steps; each is an access to the lock, or what it does while it holds it. None of
-- them ends a wait.
pub data ThreadStep (s : System) : System → Type 0 where
  lock_loop :
      s.place ≡ top
      → s.owner ≡ none
      → ThreadStep s (record s { place = check; owner = some thread })
  loop : s.place ≡ check → ThreadStep s (test_exit s)
  lock_routine :
      s.place ≡ enter
      → s.owner ≡ none
      → ThreadStep s (record s { place = look; owner = some thread })
  routine : s.place ≡ look → ThreadStep s (routine_locked s)
  relock :
      (ret : ℤ)
      → s.place ≡ woken ret
      → s.owner ≡ none
      → ThreadStep s (record s { place = resumed ret; owner = some thread })
  resume : (ret : ℤ) → s.place ≡ resumed ret → ThreadStep s (after_wait (finish_wait ret s) s)
  work : s.place ≡ working → ThreadStep s (record s { place = top })

-- A wait that ends without a notification, by its timeout or for no reason. Nothing makes such a
-- step happen.
pub data WakeStep (s : System) : System → Type 0 where
  time_out : s.place ≡ waiting → s.timed ≡ true → WakeStep s (record s { place = woken etimedout })
  spurious : s.place ≡ waiting → WakeStep s (record s { place = woken (pos 0) })

-- The steps of Exit behind its call.
pub data ExitStep (s : System) : System → Type 0 where
  lock_exit :
      s.exiting ≡ called
      → s.owner ≡ none
      → ExitStep s (record s { exiting = locked; owner = some exiter })
  ask : s.exiting ≡ locked → ExitStep s (ask_exit s)
  notify : s.exiting ≡ notifying → ExitStep s (notify_exit s)
  join :
      s.exiting ≡ joining
      → s.place ≡ returned
      → ExitStep s (record s { initialized = false; exiting = left })

-- The calls of VSyncControl, any number of them at once, but for their taking of the lock.
pub data ClientStep (s : System) : System → Type 0 where
  control :
      (enabled : Bool)
      → s.owner ≡ some client
      → ClientStep s (record s { enabled = enabled; owner = none; signals = suc s.signals })
  signal :
      (n : ℕ) → s.signals ≡ suc n → ClientStep s (record s { place = wake_up s.place; signals = n })

pub data Step (s : System) : System → Type 0 where
  by_thread : {t : System} → ThreadStep s t → Step s t
  by_wake : {t : System} → WakeStep s t → Step s t
  by_exit : {t : System} → ExitStep s t → Step s t
  by_client : {t : System} → ClientStep s t → Step s t
  lock_client : s.owner ≡ none → Step s (record s { owner = some client })
  call_exit : s.exiting ≡ away → Step s (record s { exiting = called })

-- What a worker that was created, and then perhaps initialised, comes to.
pub data Reach (timed : Bool) : System → Type 0 where
  created : Reach timed (create timed)
  started : Reach timed (init_worker (create timed)).1
  next : {s t : System} → Reach timed s → Step s t → Reach timed t
