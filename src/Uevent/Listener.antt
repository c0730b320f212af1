-- ===== src/Uevent/Listener.antt =====
-- DrmEventListener::Init and Routine (drmeventlistener.cpp): the descriptors that the listener's
-- thread waits on.
use drm_hwcomposer.Base.{
  Bool, true, false, List, [], ◌∷◌, ◌++◌, ℤ, neg, if◌then◌else◌, is_neg, is_set, ◌-ℤ◌, ℕ, Option,
  none, some,
}

-- `fds_`: whether the descriptor of the DRM device and that of the uevent socket are in the set.
pub record Watched : Type 0 where
  pub drm : Bool
  pub uevent : Bool

pub record Listener : Type 0 where
  pub uevent_fd : ℤ
  pub fds : Watched
  pub max_fd : ℤ
  pub hotplug_handler : Option ℕ

abbrev pub new_listener : Listener
new_listener = record {
  uevent_fd = neg 1;
  fds = record { drm = false; uevent = false };
  max_fd = neg 1;
  hotplug_handler = none;
}

-- Init, over what socket, bind and InitWorker give: bind's result is its errno, or 0.
unfoldable pub init_listener : ℤ → ℤ → ℤ → ℤ → Listener → ℤ × Listener
init_listener drm_fd socket bind worker_ret l =
    let opened = record l { uevent_fd = socket } in
    if is_neg socket then (socket, opened) else if is_set bind then (bind, opened) else (
      worker_ret,
      record opened {
        fds = record { drm = true; uevent = true };
        max_fd = if is_neg (drm_fd -ℤ socket) then socket else drm_fd;
      },
    )

-- RegisterHotplugHandler; a second handler fails the assertion.
unfoldable pub register_hotplug_handler : ℕ → Listener → Option Listener
register_hotplug_handler handler l = elim l.hotplug_handler [
  | none ↦ some (record l { hotplug_handler = some handler })
  | some h ↦ none
]

-- What select gives: -1 with EINTR, -1 with another error, or the set that it leaves in `fds_`.
pub data Selected : Type 0 where
  interrupted failed : Selected
  ready : Watched → Selected

-- The handlers that a round of the routine calls.
pub data Handler : Type 0 where
  drm_handle_event uevent_handler : Handler

unfoldable pub handlers : Watched → List Handler
handlers fds =
    (if fds.drm then drm_handle_event ∷ [] else [])
    ++ (if fds.uevent then uevent_handler ∷ [] else [])

module _ {E : Type 0} (select : E → Watched → Selected) where
  -- Routine, as the thread calls it over and over; each call of select takes one event. The result
  -- is the handlers that are called, in order, and the set that is left.
  unfoldable pub routine : List E → Watched → List Handler × Watched
  unfolding handlers
  routine [] fds = ([], fds)
  routine (e ∷ es) fds = elim (select e fds) [
    | interrupted ↦ routine es fds
    | failed ↦ let rest = routine es fds in (handlers fds ++ rest.0, rest.1)
    | ready left ↦ let rest = routine es left in (handlers left ++ rest.0, rest.1)
  ]
