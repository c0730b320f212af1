-- ===== src/Display/Pools.antt =====
-- The pools of planes that HwcDisplay::Init fills.
use drm_hwcomposer.Base.{
  ◌≤◌, select, ℕ, ◌+◌, ◌≡◌, Bool, true, false, ◌&&◌, List, [], ◌∷◌, arith, All, ◌==◌,
}
use drm_hwcomposer.Resources.{Plane, plane_type_primary, plane_type_overlay}
use drm_hwcomposer.Planner.Stages.{holds}
use drm_hwcomposer.Composition.{Pools}
use drm_hwcomposer.Composition.Accounting.{PoolsIsSplit, has_id, is_primary}
use drm_hwcomposer.Display.Switch.{split_planes}

abbrev pub pools_of : Bool → List Plane → Pools
pools_of use_overlay_planes planes =
    let s = split_planes use_overlay_planes planes in record { primary = s.0; overlay = s.1 }

split-primaries :
    (planes : List Plane)
    → All (λ p. is_primary p ≡ true) (select (λ p. p.kind == plane_type_primary) planes)
split-primaries [] = tt
split-primaries (p ∷ ps) = ground (arith, split-primaries ps)

split-others :
    (b : Bool) (planes : List Plane)
    → All (λ p. is_primary p ≡ false) (select (λ p. b && p.kind == plane_type_overlay) planes)
split-others b [] = tt
split-others b (p ∷ ps) = ground (arith, split-others b ps)

split-holds :
    (b : Bool) (planes : List Plane) (x : ℕ)
    → holds (has_id x) (select (λ p. p.kind == plane_type_primary) planes)
        + holds (has_id x) (select (λ p. b && p.kind == plane_type_overlay) planes)
      ≤ holds (has_id x) planes
split-holds b [] x = omega arith
split-holds b (p ∷ ps) x = ground (arith, split-holds b ps x)

-- The pools that Init fills hold the primary planes in the one and no primary planes in the other,
-- and together they hold no plane more often than the device has it.
pub pools_of-PoolsIsSplit :
    (use_overlay_planes : Bool) (planes : List Plane) (x : ℕ)
    → PoolsIsSplit (pools_of use_overlay_planes planes)
      × (holds (has_id x) (pools_of use_overlay_planes planes).primary
            + holds (has_id x) (pools_of use_overlay_planes planes).overlay
          ≤ holds (has_id x) planes)
unfolding split_planes
pools_of-PoolsIsSplit b planes x = (
  record { primaries = split-primaries planes; others = split-others b planes },
  split-holds b planes x,
)
