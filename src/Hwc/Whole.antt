-- ===== src/Hwc/Whole.antt =====
-- A frame that is validated on the device that HookDevOpen gives, in any state that SurfaceFlinger's
-- calls lead to.
use drm_hwcomposer.Composition.{Composition}
use drm_hwcomposer.Kernel.{Kernel}
use drm_hwcomposer.Display.State.{Display}
use drm_hwcomposer.Hwc.State.{Hwc}
