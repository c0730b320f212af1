-- ===== src/Composition/Accounting.antt =====
-- Planning a frame (DrmDisplayComposition::Plan) and disabling the planes that it leaves over, as
-- HwcDisplay::CreateComposition and FlattenOnDisplay do: what becomes of the planes of the pools.
use drm_hwcomposer.Base.{
  ℕ, suc, ◌+◌, ◌≤◌, ◌≡◌, refl, Bool, true, false, not, ◌&&◌, List, [], ◌∷◌, if◌then◌else◌, ◌==◌,
  All, arith, count_if-append, Option-cases, inl, inr,
}
use drm_hwcomposer.Resources.{Plane, plane_type_primary}
use drm_hwcomposer.Planner.{CompositionPlane}
use drm_hwcomposer.Planner.Stages.{holds, shows, shows_plane}
use drm_hwcomposer.Composition.{
  Composition, Pools, erase_plane, take_plane, remove_used, add_plane_disable, disable_all,
  disabled_plane,
}

abbrev pub is_primary : Plane → Bool
is_primary p = p.kind == plane_type_primary

abbrev pub is_other : Plane → Bool
is_other p = not (is_primary p)

-- The tests by which planes are counted: by id, and by id and kind.
abbrev pub has_id : ℕ → Plane → Bool
has_id x p = p.id == x

abbrev pub primary_with : ℕ → Plane → Bool
primary_with x p = is_primary p && has_id x p

abbrev pub other_with : ℕ → Plane → Bool
other_with x p = is_other p && has_id x p

-- The pools as HwcDisplay::Init and FlattenOnDisplay fill them.
pub record PoolsIsSplit (pools : Pools) : Type 0 where
  pub primaries : All (λ p. is_primary p ≡ true) pools.primary
  pub others : All (λ p. is_primary p ≡ false) pools.overlay

holds-erase_plane_ne :
    (x : ℕ) (p : Plane) (ps : List Plane)
    → has_id x p ≡ false
    → holds (has_id x) (erase_plane p ps) ≡ holds (has_id x) ps
unfolding erase_plane
holds-erase_plane_ne x p [] h = refl
holds-erase_plane_ne x p (q ∷ ps) h = ground (arith, holds-erase_plane_ne x p ps h)

holds-erase_plane_eq :
    (x : ℕ) (p : Plane) (ps : List Plane)
    → has_id x p ≡ true
    → 1 ≤ holds (has_id x) ps
    → suc (holds (has_id x) (erase_plane p ps)) ≡ holds (has_id x) ps
unfolding erase_plane
holds-erase_plane_eq x p [] h k = absurd (omega arith)
holds-erase_plane_eq x p (q ∷ ps) h k = ground (arith, holds-erase_plane_eq x p ps h)

-- The number of planes with an id in each pool, with those that were taken from it.
pub record Balance (x : ℕ) (cps : List CompositionPlane) (before after : Pools) : Type 0 where
  pub primary_kept :
      holds (has_id x) after.primary + shows (primary_with x) cps ≡ holds (has_id x) before.primary
  pub overlay_kept :
      holds (has_id x) after.overlay + shows (other_with x) cps ≡ holds (has_id x) before.overlay

take_plane-primary :
    (x : ℕ) (p : Plane) (pools : Pools) (n : ℕ)
    → (if primary_with x p then suc n else n) ≤ holds (has_id x) pools.primary
    → (holds (has_id x) (take_plane p pools).primary + (if primary_with x p then 1 else 0)
        ≡ holds (has_id x) pools.primary)
      × (n ≤ holds (has_id x) (take_plane p pools).primary)
unfolding take_plane
take_plane-primary x p pools n h =
    ground (arith, holds-erase_plane_ne x p pools.primary, holds-erase_plane_eq x p pools.primary)

take_plane-overlay :
    (x : ℕ) (p : Plane) (pools : Pools) (n : ℕ)
    → (if other_with x p then suc n else n) ≤ holds (has_id x) pools.overlay
    → (holds (has_id x) (take_plane p pools).overlay + (if other_with x p then 1 else 0)
        ≡ holds (has_id x) pools.overlay)
      × (n ≤ holds (has_id x) (take_plane p pools).overlay)
unfolding take_plane
take_plane-overlay x p pools n h =
    ground (arith, holds-erase_plane_ne x p pools.overlay, holds-erase_plane_eq x p pools.overlay)

pub remove_used-Balance :
    (x : ℕ) (cps : List CompositionPlane) (pools : Pools)
    → shows (primary_with x) cps ≤ holds (has_id x) pools.primary
    → shows (other_with x) cps ≤ holds (has_id x) pools.overlay
    → Balance x cps pools (remove_used cps pools).1
unfolding remove_used
remove_used-Balance x [] pools h k = ground arith
remove_used-Balance x (c ∷ cps) pools h k = elim (Option-cases c.plane) [
  | inl e ↦ rw (e, remove_used) (ground (arith, remove_used-Balance x cps pools))
  | inr (p, e) ↦
      rw (e, remove_used)
        (ground (
          arith,
          take_plane-primary x p pools (shows (primary_with x) cps),
          take_plane-overlay x p pools (shows (other_with x) cps),
          remove_used-Balance x cps (take_plane p pools),
        ))
]

-- Sorting the source layers of a composition's planes leaves the planes as they are.
pub remove_used-shows :
    (q : Plane → Bool) (cps : List CompositionPlane) (pools : Pools)
    → shows q (remove_used cps pools).0 ≡ shows q cps
unfolding remove_used
remove_used-shows q [] pools = refl
remove_used-shows q (c ∷ cps) pools = elim (Option-cases c.plane) [
  | inl e ↦ rw (e, remove_used) (ground (arith, remove_used-shows q cps pools))
  | inr (p, e) ↦ rw (e, remove_used) (ground (arith, remove_used-shows q cps (take_plane p pools)))
]

pub disable_all-shows :
    (q : Plane → Bool) (ps : List Plane) (c : Composition)
    → shows q (disable_all ps c).composition_planes ≡ shows q c.composition_planes + holds q ps
unfolding disable_all
disable_all-shows q [] c = omega arith
disable_all-shows q (p ∷ ps) c = ground (
  arith,
  disable_all-shows q ps (add_plane_disable p c),
  count_if-append {0} (shows_plane q) c.composition_planes (disabled_plane c.crtc p ∷ []),
)
