-- ===== src/Vsync/Phase.antt =====
-- The phase of the times that GetPhasedVSync gives (vsyncworker.cpp).
use drm_hwcomposer.Base.{ℕ, ◌+◌, ◌-◌, ◌*◌, ◌/◌, ◌≤◌, ◌<◌, ◌≡◌, pos, ◌-ℤ◌, arith}
use native.Mathlib.Nat.{mod-lt, div-add-mod}
use drm_hwcomposer.Vsync.{get_phased_vsync}

sub-pos : (a b : ℕ) → b ≤ a → pos a -ℤ pos b ≡ pos (a - b)
sub-pos a b h = ground arith

-- From a vertical blank at `last`, which is not after the present time, GetPhasedVSync gives a time
-- that lies a whole number of frames after `last`, after the present time, and at most one frame
-- after it: it is the next blank.
pub get_phased_vsync_lem :
    (last frame_ns now : ℕ)
    → 0 < frame_ns
    → last ≤ now
    → (n : ℕ) × (k : ℕ) × (get_phased_vsync (pos last) frame_ns (pos now) ≡ pos n)
      × (n ≡ last + frame_ns * k)
      × (now < n)
      × (n ≤ now + frame_ns)
unfolding get_phased_vsync
get_phased_vsync_lem last frame_ns now h k =
    let q = (now - last) / frame_ns in
    (
      frame_ns * (q + 1) + last,
      q + 1,
      rw (sub-pos now last k) (ground arith),
      omega arith,
      grind (arith, div-add-mod (now - last) frame_ns, mod-lt (now - last) h),
      grind (arith, div-add-mod (now - last) frame_ns),
    )
