-- ===== src/Examples/Workers.antt =====
-- The theorems on the worker thread, at a thread that waits while Exit is called.
use drm_hwcomposer.Base.{◌≡◌, refl, false, ◌⊎◌}
use drm_hwcomposer.Worker.{
  System, init_worker, test_exit, routine_locked, ask_exit, after_wait, finish_wait, notify_exit,
  ThreadStep, WakeStep, ask, notify, join, lock_exit, by_thread, by_exit, call_exit, Reach, started,
  next, lock_loop, loop, lock_routine, routine, relock, resume,
}
use drm_hwcomposer.Worker.Exit.{GoesOn, Ends, exit_progress, exit_terminates, exit_leaves}

-- The thread waits for a signal when Exit takes the lock.
abbrev Waited : Type 0
Waited = (s : System) × Reach false s

waited : Waited
unfolding init_worker test_exit routine_locked
waited = (
  _,
  next
      (next
        (next
          (next (next (next started (by_thread (lock_loop refl refl))) (by_thread (loop refl)))
            (by_thread (lock_routine refl refl)))
          (by_thread (routine refl)))
        (call_exit refl))
      (by_exit (lock_exit refl refl)),
)

exit_progress_example : GoesOn waited.0
unfolding waited
exit_progress_example = exit_progress waited.1 refl

asked : Waited
unfolding waited
asked = (_, next waited.1 (by_exit (ask refl)))

-- Exit notifies the thread, which takes the lock again, finds that it shall exit, and returns.
ended : Waited
unfolding asked ask_exit notify_exit test_exit after_wait finish_wait
ended = (
  _,
  next
      (next
        (next
          (next (next (next asked.1 (by_exit (notify refl))) (by_thread (relock _ refl refl)))
            (by_thread (resume _ refl)))
          (by_thread (lock_loop refl refl)))
        (by_thread (loop refl)))
      (by_exit (join refl refl)),
)

exit_terminates_example : Ends 7 asked.0
unfolding asked ask_exit
exit_terminates_example = exit_terminates asked.1 refl

exit_leaves_example :
    (ended.0.initialized ≡ false) × ((t : System) → ThreadStep ended.0 t ⊎ WakeStep ended.0 t → ⊥)
unfolding ended
exit_leaves_example = exit_leaves ended.1 refl
