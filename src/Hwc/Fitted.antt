-- ===== src/Hwc/Fitted.antt =====
-- The planes and the planner of the displays through all calls that SurfaceFlinger makes.
use drm_hwcomposer.Base.{Bool, ◌≡◌, some, List, ℤ, All}
use drm_hwcomposer.Planner.{Stage}
use drm_hwcomposer.Kernel.{Kernel}
use drm_hwcomposer.Display.State.{Display, create_layer, destroy_layer}
use drm_hwcomposer.Hwc.Calls.{Surroundings}
use drm_hwcomposer.Hwc.State.{Hwc, returns}
use drm_hwcomposer.Hwc.Start.{Found, hook_dev_open}
use drm_hwcomposer.Hwc.Root.{Call, run}
use drm_hwcomposer.Hwc.Kept.{IsCounted, of_counted}
use drm_hwcomposer.Hwc.Opened.{IsFitted, IsFitted-Same, opened-keeps}

IsFitted-IsCounted :
    {K : Type 0} (stages : List Stage) → IsCounted (λ n (d : Display K). IsFitted stages d)
unfolding create_layer destroy_layer
IsFitted-IsCounted stages = record {
  by_same = λ n d d' k f. IsFitted-Same stages d d' k.1 f;
  up = λ m n d l f. f;
  by_create = λ n d f. f;
  by_destroy = λ n h d f. f;
}

-- Whatever HookDevOpen finds, and whatever calls SurfaceFlinger then makes on the device that it
-- gives: every display plans with the stages of the platform, its CRTC, if it has one, supports all
-- its planes, and of its two pools the one holds primary planes alone and the other none.
pub opened-IsFitted :
    {K : Type 0} (kernel : Kernel K) (w : Surroundings K) (is_composer : Bool) (found : Found)
    (k : K) (ret : ℤ) (s : Hwc K) (cs : List Call)
    → hook_dev_open kernel is_composer found k ≡ returns (ret, some s)
    → All (λ d. IsFitted found.planner d.1.display) (run kernel w cs s).1.displays
opened-IsFitted kernel w is_composer found k ret s cs opened =
    (opened-keeps kernel w
      (of_counted kernel w (λ n d. IsFitted found.planner d) (IsFitted-IsCounted found.planner))
      is_composer found k ret s cs (λ h b. b.2) opened).1
