-- ===== src/Compositor/Report.antt =====
-- DrmDisplayCompositor::Dump (drmdisplaycompositor.cpp): the frames since the last report.
use drm_hwcomposer.Base.{
  ℕ, ◌+◌, ◌-◌, ◌*◌, ◌/◌, ◌%◌, ◌^◌, Option, none, some, ℤ, if◌then◌else◌, ◌==◌, is_set,
}
use drm_hwcomposer.Compositor.State.{Compositor}

-- What is printed. The frames for each second are a float: here its fraction, and `none` for 0.
pub record Report : Type 0 where
  pub num_frames : ℕ
  pub num_ms : ℕ
  pub fps : Option (ℕ × ℕ)

abbrev report : ℕ → ℕ → Report
report num_frames num_ms = record {
  num_frames = num_frames;
  num_ms = num_ms;
  fps = if num_ms == 0 then none else some (num_frames * 1000, num_ms);
}

-- Dump, over the results of the lock and of the clock, in nanoseconds: the report, the time of the
-- last one, and the compositor.
unfoldable pub dump :
    {K : Type 0} → ℤ → Option ℕ → ℕ → Compositor K → Option Report × ℕ × Compositor K
dump lock_ret now last s =
    let counted = record s { frames_composited = 0 } in
    if is_set lock_ret then (none, last, s) else elim now [
      | none ↦ (none, last, counted)
      | some cur ↦ (
        some (report s.frames_composited ((cur + 2 ^ 64 - last) % 2 ^ 64 / (1000 * 1000))),
        cur,
        counted,
      )
    ]
