-- ===== src/Examples/Planes.antt =====
-- The planner and the planning of a composition.
use drm_hwcomposer.Base.{
  ◌⊎◌, ℕ, ◌+◌, ◌≡◌, refl, Bool, true, false, some, List, [], ◌∷◌, pos, einval, ◌≢◌, arith,
  if◌then◌else◌, null, enodev,
}
use drm_hwcomposer.Resources.{Plane}
use drm_hwcomposer.Mode.{default_mode}
use drm_hwcomposer.Planner.{greedy_stage, provision_planes, get_usable_planes, layer_plane}
use drm_hwcomposer.Planner.Stages.{pair_up, holds, shows, provision_planes-greedy}
use drm_hwcomposer.Composition.{
  Composition, CompositionType, new_composition, plan, planned, disable_all, frame as frame_type,
  Pools,
}
use drm_hwcomposer.Composition.Accounting.{has_id}
use drm_hwcomposer.Composition.Dump.{dump_transform}
use drm_hwcomposer.Composition.Printed.{prints, dump_transform-names}
use drm_hwcomposer.Composition.Exhaustive.{plan-once}
use drm_hwcomposer.Composition.Typing.{display_mode, setup, setup_lem}
use drm_hwcomposer.Examples.Data.{primary_plane, overlay_plane, crtc, drm_layer, pools}

abbrev three : List (ℕ × Bool)
three = (0, false) ∷ (1, true) ∷ (2, true) ∷ []

abbrev both : List Plane
both = primary_plane ∷ overlay_plane ∷ []

provision_planes-greedy_example :
    provision_planes (greedy_stage ∷ []) three crtc pools.primary pools.overlay ≡ (
      if null (get_usable_planes crtc pools.primary pools.overlay)
      then (enodev, [])
      else (pos 0, pair_up crtc three (get_usable_planes crtc pools.primary pools.overlay)))
provision_planes-greedy_example = provision_planes-greedy three crtc pools.primary pools.overlay

-- A frame of one layer: the primary plane shows it, the overlay plane is left.
abbrev one_layer : Composition
one_layer = record new_composition {
  crtc = some crtc;
  planner = greedy_stage ∷ [];
  kind = frame_type;
  layers = drm_layer ∷ [];
}

abbrev one_planned : Composition
one_planned = record one_layer { composition_planes = layer_plane crtc primary_plane 0 ∷ [] }

abbrev one_left : Pools
one_left = record { primary = []; overlay = overlay_plane ∷ [] }

one_layer-plan : plan one_layer pools ≡ planned (pos 0) one_planned one_left
unfolding plan provision_planes
one_layer-plan = refl

plan-once_example :
    shows
      (has_id 32)
      (disable_all one_left.overlay (disable_all one_left.primary one_planned)).composition_planes
    ≡ holds (has_id 32) pools.primary + holds (has_id 32) pools.overlay
plan-once_example =
    plan-once one_layer one_planned pools one_left 32
      (record { primaries = (refl, tt); others = (refl, tt) }) refl one_layer-plan

setup_lem_example :
    (((frame_type ≡ CompositionType.empty) ⊎ (frame_type ≡ CompositionType.modeset))
      × ((setup (display_mode default_mode) one_layer).0 ≡ pos 0)
      × ((setup (display_mode default_mode) one_layer).1.kind ≡ CompositionType.modeset))
    ⊎ ((frame_type ≢ CompositionType.empty)
        × (frame_type ≢ CompositionType.modeset)
        × (setup (display_mode default_mode) one_layer ≡ (einval, one_layer)))
setup_lem_example = setup_lem (display_mode default_mode) one_layer

-- A vertical flip.
dump_transform-names_example :
    (prints "FLIPH" (dump_transform 2) ≡ false)
    × (prints "FLIPV" (dump_transform 2) ≡ true)
    × (prints "ROTATE90" (dump_transform 2) ≡ false)
    × (prints "ROTATE180" (dump_transform 2) ≡ false)
    × (prints "ROTATE270" (dump_transform 2) ≡ false)
    × (prints "INVALID" (dump_transform 2) ≡ true)
dump_transform-names_example = dump_transform-names 2 (omega arith)
