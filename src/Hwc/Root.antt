-- ===== src/Hwc/Root.antt =====
-- RegisterCallback, and the hooks by which SurfaceFlinger's calls reach the device, a display or a
-- layer (drmhwctwo.h, drmhwctwo.cpp).
use drm_hwcomposer.Base.{
  ℕ, Bool, true, false, Option, none, some, List, [], ◌∷◌, ℤ, pos, if◌then◌else◌, ◌==◌,
}
use drm_hwcomposer.Kernel.{Kernel}
use drm_hwcomposer.Display.Layer.{no_error, unsupported, HwcLayer}
use drm_hwcomposer.Display.State.{find_layer}
use drm_hwcomposer.Hwc.Calls.{
  HwcDisplay, Surroundings, DisplayCall, LayerCall, Answer, register_vsync_callback, done, count,
  nothing, call_display, call_layer,
}
use drm_hwcomposer.Hwc.State.{
  Callback, Hwc, HwcCallback, Outcome, connection_connected, faults, find_display, hotplug,
  other_callback, primary, put_display, refresh, returns, throws, vsync, with_layer,
}

-- HookDevClose, and the number that HookDevGetCapabilities writes.
abbrev hook_dev_close : ℤ
hook_dev_close = pos 0

abbrev hook_dev_get_capabilities : ℕ
hook_dev_get_capabilities = 0

abbrev same_callback : Callback → Callback → Bool
same_callback hotplug hotplug = true
same_callback refresh refresh = true
same_callback vsync vsync = true
same_callback (other_callback m) (other_callback n) = m == n
same_callback _ _ = false

-- `emplace` leaves a callback that is registered.
unfoldable pub emplace_callback : HwcCallback → List HwcCallback → List HwcCallback
emplace_callback c [] = c ∷ []
emplace_callback c (d ∷ ds) =
    let more = emplace_callback c ds in
    if same_callback c.callback d.callback then d ∷ ds else d ∷ more

-- RegisterVsyncCallback of each display.
unfoldable pub listen : {K : Type 0} → ℕ → List (ℕ × HwcDisplay K) → List (ℕ × HwcDisplay K)
listen function [] = []
listen function ((k, d) ∷ ds) = (k, register_vsync_callback function d) ∷ listen function ds

-- RegisterCallback: the call of the function that it makes, with the display and the connection,
-- and the device.
unfoldable pub register : {K : Type 0} → HwcCallback → Hwc K → Option (ℕ × ℕ) × Hwc K
unfolding emplace_callback listen
register c s =
    let kept = record s { callbacks = emplace_callback c s.callbacks } in
    elim c.callback [
      | hotplug ↦ (some (primary, connection_connected), kept)
      | vsync ↦ (none, record kept { displays = listen c.function s.displays })
      | _ ↦ (none, kept)
    ]

pub data DeviceCall : Type 0 where
  new_virtual_display drop_virtual_display dump virtual_display_count : DeviceCall
  add_callback : HwcCallback → DeviceCall

-- The method of DrmHwcTwo that a call names.
unfoldable pub call_device : {K : Type 0} → DeviceCall → Hwc K → Answer × Hwc K
call_device new_virtual_display s = (done unsupported, s)
call_device drop_virtual_display s = (done unsupported, s)
call_device dump s = (nothing, s)
call_device virtual_display_count s = (count 0, s)
call_device (add_callback c) s = (done no_error, (register c s).1)

pub data Call : Type 0 where
  on_display : ℕ → DisplayCall → Call
  on_layer : ℕ → ℕ → LayerCall → Call
  on_device : DeviceCall → Call

module _ {K : Type 0} (kernel : Kernel K) (w : Surroundings K) where
  -- DisplayHook.
  unfoldable pub display_hook : ℕ → DisplayCall → Hwc K → Outcome (Answer × Hwc K)
  unfolding find_display
  display_hook h c s = elim (find_display h s.displays) [
    | none ↦ throws
    | some d ↦ elim (call_display kernel w c d) [
      | none ↦ faults
      | some (answer, d') ↦ returns (answer, record s { displays = put_display h d' s.displays })
    ]
  ]

  -- LayerHook, with `get_layer`.
  unfoldable pub layer_hook : ℕ → ℕ → LayerCall → Hwc K → Outcome (Answer × Hwc K)
  layer_hook h layer c s = elim (find_display h s.displays) [
    | none ↦ throws
    | some hd ↦ elim (find_layer layer hd.display.layers) [
      | none ↦ throws
      | some l ↦
          let f : HwcLayer → HwcLayer = λ m. (call_layer w.platform.dup c m).1 in
          returns (
            (call_layer w.platform.dup c l).0,
            record s { displays = put_display h (with_layer layer f hd) s.displays },
          )
    ]
  ]

  unfoldable pub call : Call → Hwc K → Outcome (Answer × Hwc K)
  call (on_display h c) s = display_hook h c s
  call (on_layer h layer c) s = layer_hook h layer c s
  call (on_device c) s = returns (call_device c s)

  -- A sequence of calls, up to the first that does not return: the answers, and the device behind
  -- those that did.
  unfoldable pub run : List Call → Hwc K → List Answer × Hwc K
  run [] s = ([], s)
  run (c ∷ cs) s = elim (call c s) [
    | returns (answer, s') ↦ let rest = run cs s' in (answer ∷ rest.0, rest.1)
    | throws ↦ ([], s)
    | faults ↦ ([], s)
  ]
