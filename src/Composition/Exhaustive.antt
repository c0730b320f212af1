-- ===== src/Composition/Exhaustive.antt =====
-- A planned frame with the left-over planes disabled says of every plane of the pools what it shall
-- do, once: DrmDisplayComposition::Plan and the loops over AddPlaneDisable behind it.
use drm_hwcomposer.Base.{
  ℕ, ◌+◌, ◌≤◌, ◌≡◌, refl, ap, Bool, true, false, List, [], ◌∷◌, ℤ, pos, All, is_set, arith,
  Option-cases, Bool-cases, inl, inr,
}
use drm_hwcomposer.Resources.{Plane, Crtc}
use drm_hwcomposer.Planner.{CompositionPlane, provision_planes}
use drm_hwcomposer.Planner.Stages.{holds, shows, provision_planes-shows}
use drm_hwcomposer.Composition.{
  Composition, planned, Pools, remove_used, disable_all, index_layers, plan_frame, plan, frame,
}
use drm_hwcomposer.Composition.Accounting.{
  is_primary, has_id, primary_with, other_with, PoolsIsSplit, Balance, remove_used-Balance,
  remove_used-shows, disable_all-shows,
}

holds-primaries :
    (x : ℕ) (ps : List Plane)
    → All (λ p. is_primary p ≡ true) ps
    → (holds (primary_with x) ps ≡ holds (has_id x) ps) × (holds (other_with x) ps ≡ 0)
holds-primaries x [] h = (refl, refl)
holds-primaries x (p ∷ ps) h = ground (arith, holds-primaries x ps h.1)

holds-others :
    (x : ℕ) (ps : List Plane)
    → All (λ p. is_primary p ≡ false) ps
    → (holds (other_with x) ps ≡ holds (has_id x) ps) × (holds (primary_with x) ps ≡ 0)
holds-others x [] h = (refl, refl)
holds-others x (p ∷ ps) h = ground (arith, holds-others x ps h.1)

shows-split :
    (x : ℕ) (cps : List CompositionPlane)
    → shows (has_id x) cps ≡ shows (primary_with x) cps + shows (other_with x) cps
shows-split x [] = omega arith
shows-split x (c ∷ cps) = ground (arith, shows-split x cps)

-- The planes of a plan, which `found` holds, and those that it leaves in the pools.
used-once :
    (x : ℕ) (found : List CompositionPlane) (pools : Pools) (c : Composition)
    → PoolsIsSplit pools
    → ((q : Plane → Bool) → shows q found ≤ holds q pools.primary + holds q pools.overlay)
    → c.composition_planes ≡ (remove_used found pools).0
    → let left = (remove_used found pools).1 in
      shows (has_id x) (disable_all left.overlay (disable_all left.primary c)).composition_planes
      ≡ holds (has_id x) pools.primary + holds (has_id x) pools.overlay
used-once x found pools c split most e =
    let left = (remove_used found pools).1 in
    let kept : Balance x found pools left =
      remove_used-Balance x found pools
        (omega (
          arith,
          most (primary_with x),
          holds-primaries x pools.primary split.primaries,
          holds-others x pools.overlay split.others,
        ))
        (omega (
          arith,
          most (other_with x),
          holds-primaries x pools.primary split.primaries,
          holds-others x pools.overlay split.others,
        )) in
    omega (
      arith,
      kept.primary_kept,
      kept.overlay_kept,
      shows-split x found,
      remove_used-shows (has_id x) found pools,
      ap (shows (has_id x)) e,
      disable_all-shows (has_id x) left.primary c,
      disable_all-shows (has_id x) left.overlay (disable_all left.primary c),
    )

plan_frame-once :
    (crtc : Crtc) (c c' : Composition) (pools pools' : Pools) (x : ℕ)
    → PoolsIsSplit pools
    → plan_frame crtc c pools ≡ planned (pos 0) c' pools'
    → shows
        (has_id x)
        (disable_all pools'.overlay (disable_all pools'.primary c')).composition_planes
      ≡ holds (has_id x) pools.primary + holds (has_id x) pools.overlay
unfolding plan_frame
plan_frame-once crtc c c' pools pools' x split h =
    let found : ℤ × List CompositionPlane =
      provision_planes c.planner (index_layers 0 c.layers) crtc pools.primary pools.overlay in
    elim (Bool-cases (is_set found.0)) [
      | inl failed ↦ ground arith
      | inr fine ↦ ground (
        arith,
        used-once x found.1 pools (record c { composition_planes = (remove_used found.1 pools).0 })
            split
            (λ q.
              provision_planes-shows q c.planner (index_layers 0 c.layers) crtc pools.primary
                pools.overlay)
            refl,
      )
    ]

-- When the planning of a frame succeeds, for pools that hold primary planes in the one and no
-- primary planes in the other, the composition with the left-over planes disabled names each plane
-- of the pools exactly as often as the pools held it: none is forgotten, and none is used for two
-- layers or both used and disabled.
pub plan-once :
    (c c' : Composition) (pools pools' : Pools) (x : ℕ)
    → PoolsIsSplit pools
    → c.kind ≡ frame
    → plan c pools ≡ planned (pos 0) c' pools'
    → shows
        (has_id x)
        (disable_all pools'.overlay (disable_all pools'.primary c')).composition_planes
      ≡ holds (has_id x) pools.primary + holds (has_id x) pools.overlay
unfolding plan
plan-once c c' pools pools' x split k h = elim (Option-cases c.crtc) [
  | inl e ↦ ground arith
  | inr (crtc, e) ↦ plan_frame-once crtc c c' pools pools' x split (ground arith)
]
