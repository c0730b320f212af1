-- ===== src/Uevent.antt =====
-- drmeventlistener.cpp: the hotplug messages of the kernel, and the flip events.
pub mod Message
pub mod Listener
pub mod Watching
use Prim.Native.String.{String}
use text.Mathlib.Text.{◌==◌ as str_eq}
use drm_hwcomposer.Base.{
  ℕ, ◌+◌, ◌*◌, Bool, true, false, not, ◌&&◌, Option, none, some, List, [], ◌∷◌, if◌then◌else◌,
}

-- What a message tells the loop of UEventHandler: whether it is of a DRM device, and of a hotplug.
pub record Seen : Type 0 where
  pub drm_event : Bool
  pub hotplug_event : Bool

-- The loop over the strings of a message. `strcmp` is 0 on equal strings, and the tests are on its
-- result: the first is passed by every string but the one that it names.
unfoldable pub scan : List String → Seen → Seen
scan [] s = s
scan (e ∷ es) s = scan es (
    if not (str_eq e "DEVTYPE=drm_minor")
    then record s { drm_event = true }
    else if not (str_eq e "HOTPLUG=1")
    then record s { hotplug_event = true }
    else s)

-- Whether the handler is called for a message.
unfoldable pub handles : List String → Bool
unfolding scan
handles message =
    let s = scan message (record { drm_event = false; hotplug_event = false }) in
    s.drm_event && s.hotplug_event

-- The messages that `read` gives until it has no more or fails; the handler is called with the time
-- at which UEventHandler was entered.
unfoldable pub uevent_handler : Option ℕ → ℕ → List (List String) → List (ℕ × ℕ)
unfolding handles
uevent_handler handler timestamp [] = []
uevent_handler none timestamp (m ∷ ms) = uevent_handler none timestamp ms
uevent_handler (some h) timestamp (m ∷ ms) =
    let rest = uevent_handler (some h) timestamp ms in
    if handles m then (h, timestamp) ∷ rest else rest

-- FlipHandler: the handler's event in microseconds.
unfoldable pub flip_handler : Option ℕ → ℕ → ℕ → Option (ℕ × ℕ)
flip_handler none tv_sec tv_usec = none
flip_handler (some handler) tv_sec tv_usec = some (handler, tv_sec * 1000 * 1000 + tv_usec)
