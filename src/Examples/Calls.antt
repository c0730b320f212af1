-- ===== src/Examples/Calls.antt =====
-- The device that HookDevOpen gives, and calls on it.
use drm_hwcomposer.Base.{
  ◌≡◌, refl, ◌⊎◌, ◌&&◌, ◌==◌, if◌then◌else◌, ℕ, true, none, some, [], ◌∷◌, List, ℤ, Option, pos,
  neg, All, arith,
}
use drm_hwcomposer.Planner.{greedy_stage}
use drm_hwcomposer.Device.State.{handles_display}
use drm_hwcomposer.Display.Layer.{
  no_error, set_attribute, device, composition_type, z_order, HwcLayer,
}
use drm_hwcomposer.Display.State.{create_layer, find_layer, emplace_layer, change_layer}
use drm_hwcomposer.Display.Switch.{set_active_config}
use drm_hwcomposer.Compositor.Apply.{apply_composition}
use drm_hwcomposer.Composition.{set_display_mode, init}
use drm_hwcomposer.Vsync.{new_worker}
use drm_hwcomposer.Hwc.Calls.{
  done, number, Surroundings, attribute, buffer, new_layer, drop_layer, validate, present,
  call_layer, call_display,
}
use drm_hwcomposer.Hwc.State.{find_display, put_display, Hwc, Outcome, returns, throws, faults}
use drm_hwcomposer.Hwc.Start
use drm_hwcomposer.Hwc.Start.{Found, init_primary, hook_dev_open}
use drm_hwcomposer.Hwc.Root.{call, display_hook, Call, on_display, on_layer, layer_hook, run}
use drm_hwcomposer.Hwc.Fences.{NoRetireFence}
use drm_hwcomposer.Hwc.Fitted.{opened-IsFitted}
use drm_hwcomposer.Hwc.Opened.{IsFitted, opened-NoFence}
use drm_hwcomposer.Hwc.Handles.{opened-HandlesIsValid}
use drm_hwcomposer.Display.Handles.{HandlesIsValid}
use drm_hwcomposer.Hwc.Missing.{layer_of, layer_hook_lem}
use drm_hwcomposer.Examples.Card.{path, report, manager, outcome-init_manager}
use drm_hwcomposer.Examples.Data.{kernel, platform, display}

abbrev pub found : Found
found = record {
  path = path;
  gralloc = pos 0;
  lock_ret = pos 0;
  vsync_ret = pos 0;
  use_overlay_planes = true;
  report = some report;
  planner = greedy_stage ∷ [];
  flatten_callback = 1;
}

abbrev pub around : Surroundings ℕ
around = record {
  platform = platform;
  report = λ k connector. none;
  period = λ mode. pos 16;
  name_of = λ connector. b'd' ∷ [];
}

abbrev pub device_of : Outcome (ℤ × Option (Hwc ℕ)) → Hwc ℕ
device_of (returns (ret, some s)) = s
device_of _ = record { displays = []; callbacks = [] }

abbrev pub opened : Hwc ℕ
opened = device_of (elim (init_primary kernel found manager.drms 0) [
  | returns (e, s) ↦ returns (pos 0, some s)
  | throws ↦ throws
  | faults ↦ faults
])

pub opened-run : hook_dev_open kernel true found 0 ≡ returns (pos 0, some opened)
unfolding hook_dev_open Start.init init_primary set_active_config apply_composition set_display_mode
    init handles_display
opened-run = rw (outcome-init_manager, Start.init) refl

-- A layer is made and given a buffer, and a frame with it is checked and shown.
abbrev frame_calls : List Call
frame_calls =
    on_display 0 new_layer
    ∷ on_layer 0 0 (buffer 9 (neg 1))
    ∷ on_layer 0 0 (attribute (composition_type device))
    ∷ on_display 0 validate
    ∷ on_display 0 present
    ∷ []

opened-NoFence_example : All (NoRetireFence kernel around) (run kernel around frame_calls opened).0
opened-NoFence_example =
    opened-NoFence kernel around true found 0 (pos 0) opened frame_calls opened-run

-- Three layers, of which the second is destroyed again.
abbrev layer_calls : List Call
layer_calls =
    on_display 0 new_layer
    ∷ on_display 0 new_layer
    ∷ on_display 0 new_layer
    ∷ on_display 0 (drop_layer 1)
    ∷ frame_calls

opened-HandlesIsValid_example :
    All (λ d. HandlesIsValid d.1.display) (run kernel around layer_calls opened).1.displays
opened-HandlesIsValid_example =
    opened-HandlesIsValid kernel around true found 0 (pos 0) opened layer_calls opened-run
      (omega arith)

opened-IsFitted_example :
    All
      (λ d. IsFitted (greedy_stage ∷ []) d.1.display)
      (run kernel around layer_calls opened).1.displays
opened-IsFitted_example =
    opened-IsFitted kernel around true found 0 (pos 0) opened layer_calls opened-run

-- The new layer is the second call's; the third names a layer that is not there.
answers-layer :
    (run kernel around
      (on_display 0 new_layer
        ∷ on_layer 0 0 (attribute (z_order 7))
        ∷ on_layer 0 1 (attribute (z_order 7))
        ∷ on_display 0 new_layer
        ∷ [])
      opened).0
    ≡ number no_error (some 0) ∷ done no_error ∷ []
unfolding run call display_hook layer_hook call_display call_layer create_layer hook_dev_open
    set_active_config apply_composition set_display_mode init set_attribute find_display put_display
    find_layer emplace_layer change_layer handles_display
answers-layer = refl

-- A device whose display has three layers, and a call on the second of them.
abbrev shown : Hwc ℕ
shown = record opened {
  displays =
      (
        0,
        record {
          display = display;
          vsync_worker = new_worker;
          kind = 1;
          mode_id = 0;
          min_resolution = (1, 1);
          max_resolution = (4096, 4096);
          has_connector = true;
        },
      )
      ∷ [];
}

layer_hook_lem_example :
    let c = attribute (z_order 7) in
    ((layer_of 0 1 shown ≡ none) × (layer_hook kernel around 0 1 c shown ≡ throws))
    ⊎ ((l : HwcLayer) × (s' : Hwc ℕ) × (layer_of 0 1 shown ≡ some l)
        × (layer_hook kernel around 0 1 c shown ≡ returns ((call_layer platform.dup c l).0, s'))
        × (layer_of 0 2 s' ≡ (
            if (0 == 0) && (2 == 1)
            then some (call_layer platform.dup c l).1
            else layer_of 0 2 shown)))
layer_hook_lem_example = layer_hook_lem kernel around 0 1 (attribute (z_order 7)) shown 0 2
