-- ===== src/Compositor/Start.antt =====
-- DrmDisplayCompositor::Init (drmdisplaycompositor.cpp).
use drm_hwcomposer.Base.{
  ℕ, Bool, true, Option, none, some, List, ℤ, pos, einval, if◌then◌else◌, is_set,
}
use drm_hwcomposer.Planner.{Stage}
use drm_hwcomposer.Vsync.{VsyncWorker, register_callback}

-- What Init sets. A callback is a number.
pub record Started : Type 0 where
  pub planner : List Stage
  pub vsync_worker : VsyncWorker
  pub initialized : Bool

-- Init, over the device that the resource manager has for the display, the result of
-- pthread_mutex_init and the planner of the platform. What the vsync worker's Init returns is not
-- looked at.
unfoldable pub init_compositor :
    {D : Type 0} → Option D → ℤ → (D → List Stage) → ℕ → Started → ℤ × Started
unfolding register_callback
init_compositor none lock_ret create_planner flatten_callback s = (einval, s)
init_compositor (some drm) lock_ret create_planner flatten_callback s =
    if is_set lock_ret then (lock_ret, s) else (
      pos 0,
      record {
        planner = create_planner drm;
        vsync_worker = register_callback flatten_callback s.vsync_worker;
        initialized = true;
      },
    )
