-- ===== src/Vsync.antt =====
-- vsyncworker.h and vsyncworker.cpp: the times of the vertical blanks that the worker reports.
pub mod Phase
use drm_hwcomposer.Base.{
  ℕ, Bool, false, Option, none, some, ℤ, pos, neg, eintr, ◌+ℤ◌, ◌-ℤ◌, ◌*ℤ◌, quot, if◌then◌else◌,
  is_neg, is_set, ◌==ℤ◌,
}

-- The state that the worker's routine and its clients share, under the worker's lock.
pub record VsyncWorker : Type 0 where
  pub enabled : Bool
  pub last_timestamp : ℤ
  pub callback : Option ℕ

abbrev pub new_worker : VsyncWorker
new_worker = record { enabled = false; last_timestamp = neg 1; callback = none }

unfoldable pub register_callback : ℕ → VsyncWorker → VsyncWorker
register_callback callback w = record w { callback = some callback }

unfoldable pub vsync_control : Bool → VsyncWorker → VsyncWorker
vsync_control enabled w = record w { enabled = enabled; last_timestamp = neg 1 }

-- GetPhasedVSync, on int64_t without overflow: the division is that of C++, towards zero.
unfoldable pub get_phased_vsync : ℤ → ℕ → ℤ → ℤ
get_phased_vsync last_timestamp frame_ns current =
    if is_neg last_timestamp
    then current +ℤ pos frame_ns
    else pos frame_ns *ℤ (quot (current -ℤ last_timestamp) frame_ns +ℤ pos 1) +ℤ last_timestamp

abbrev pub one_second_ns : ℕ
one_second_ns = 1_000_000_000

-- SyntheticWaitVBlank: `now` is the monotonic clock, `frame_ns` one second by the refresh rate of
-- the active mode (60 Hz if there is none), and `sleep` what clock_nanosleep returns in the end. The
-- time slept for is split in seconds and nanoseconds, and put together again.
unfoldable pub synthetic_wait : ℤ → ℕ → ℤ → ℤ → ℤ × ℤ
unfolding get_phased_vsync
synthetic_wait last_timestamp frame_ns now sleep =
    let phased = get_phased_vsync last_timestamp frame_ns now in
    let seconds = quot phased one_second_ns in
    let rest = phased -ℤ seconds *ℤ pos one_second_ns in
    if is_set sleep then (sleep, neg 1) else (pos 0, seconds *ℤ pos one_second_ns +ℤ rest)

-- What the kernel and the clock answer in one round of the routine: whether the wait for a signal
-- was ended by Exit, the call of VSyncControl that came in the wait, if one did, drmWaitVBlank's
-- result and time stamp.
pub record Round : Type 0 where
  pub exited : Bool
  pub control : Option Bool
  pub has_crtc : Bool
  pub wait_result : ℤ
  pub vblank_time : ℤ
  pub frame_ns : ℕ
  pub now : ℤ
  pub sleep : ℤ

-- The end of a round: the callback that is called with the time stamp, and the state.
report : ℤ → VsyncWorker → Option (ℕ × ℤ) × VsyncWorker
report timestamp w = (
  elim w.callback [ none ↦ none | some c ↦ some (c, timestamp) ],
  record w { last_timestamp = timestamp },
)

wait_and_report : Round → VsyncWorker → Option (ℕ × ℤ) × VsyncWorker
unfolding synthetic_wait report
wait_and_report r w =
    let synthetic = synthetic_wait w.last_timestamp r.frame_ns r.now r.sleep in
    if r.wait_result ==ℤ eintr
    then (none, w)
    else if is_set r.wait_result
    then (if is_set synthetic.0 then (none, w) else report synthetic.1 w)
    else report r.vblank_time w

-- Routine. While the worker is disabled it waits for a signal, and then looks at `enabled_` again.
unfoldable pub routine : Round → VsyncWorker → Option (ℕ × ℤ) × VsyncWorker
unfolding wait_and_report vsync_control
routine r w =
    let woken : VsyncWorker = elim r.control [ none ↦ w | some e ↦ vsync_control e w ] in
    let go : VsyncWorker → Option (ℕ × ℤ) × VsyncWorker =
      λ v. if r.has_crtc then wait_and_report r v else (none, v) in
    if w.enabled
    then go w
    else if r.exited
    then (none, w)
    else if woken.enabled
    then go woken
    else (none, woken)
