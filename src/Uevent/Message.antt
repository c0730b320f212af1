-- ===== src/Uevent/Message.antt =====
-- Which messages the loop of UEventHandler takes for a hotplug (drmeventlistener.cpp).
use Prim.Native.String.{String}
use text.Mathlib.Text.{◌==◌ as str_eq}
use text.Mathlib.TextEquality.{eq_iff}
use drm_hwcomposer.Base.{◌≡◌, Bool, true, false, not, ◌&&◌, ◌||◌, List, [], ◌∷◌, arith}
use drm_hwcomposer.Uevent.{Seen, scan, handles}

abbrev pub any : (String → Bool) → List String → Bool
any p [] = false
any p (e ∷ es) = p e || any p es

abbrev pub names_minor : String → Bool
names_minor e = str_eq e "DEVTYPE=drm_minor"

abbrev pub names_other : String → Bool
names_other e = not (names_minor e)

abbrev pub names_hotplug : String → Bool
names_hotplug e = str_eq e "HOTPLUG=1"

minor-not-hotplug : (e : String) → names_minor e ≡ true → names_hotplug e ≡ false
minor-not-hotplug e h = rw ((eq_iff e "DEVTYPE=drm_minor").0 h)

scan_lem :
    (es : List String) (s : Seen)
    → (scan es s).drm_event && (scan es s).hotplug_event
      ≡ (s.drm_event || any names_other es) && (s.hotplug_event || any names_minor es)
unfolding scan
scan_lem [] s = ground arith
scan_lem (e ∷ es) s = ground (
  arith,
  minor-not-hotplug e,
  scan_lem es (record s { hotplug_event = true }),
  scan_lem es (record s { drm_event = true }),
)

-- The handler is called for a message exactly when one of its strings is "DEVTYPE=drm_minor" and
-- another one is not: "HOTPLUG=1" plays no part.
pub handles_lem : (es : List String) → handles es ≡ any names_minor es && any names_other es
unfolding handles
handles_lem es = ground (arith, scan_lem es (record { drm_event = false; hotplug_event = false }))
