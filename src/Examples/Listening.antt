-- ===== src/Examples/Listening.antt =====
-- The listener's thread, with a select that reports what an event says of the descriptors waited on.
use drm_hwcomposer.Base.{◌≡◌, ◌&&◌, refl, Bool, true, false, [], ◌∷◌}
use drm_hwcomposer.Uevent.Listener.{
  Watched, Selected, ready, drm_handle_event, uevent_handler, handlers, routine,
}
use drm_hwcomposer.Uevent.Watching.{message_reads, Leaves, routine-forgets}

abbrev both : Watched
both = record { drm = true; uevent = true }

abbrev only_drm : Watched
only_drm = record { drm = true; uevent = false }

abbrev select_of : Watched → Watched → Selected
select_of events fds =
    ready (record { drm = events.drm && fds.drm; uevent = events.uevent && fds.uevent })

and-and : (a b : Bool) → (a && b) && b ≡ a && b
and-and false b = refl
and-and true false = refl
and-and true true = refl

select_of-Leaves : (events fds : Watched) → Leaves fds (select_of events fds)
select_of-Leaves events fds = (and-and events.drm fds.drm, and-and events.uevent fds.uevent)

-- A message comes with the second and the third event.
routine-forgets_example : message_reads (routine select_of (only_drm ∷ both ∷ both ∷ []) both).0 ≡ 0
routine-forgets_example =
    routine-forgets select_of select_of-Leaves only_drm (both ∷ both ∷ []) both only_drm refl refl

reads-first : (routine select_of (both ∷ []) both).0 ≡ drm_handle_event ∷ uevent_handler ∷ []
unfolding routine handlers
reads-first = refl
