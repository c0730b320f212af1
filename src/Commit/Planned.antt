-- ===== src/Commit/Planned.antt =====
-- From the plan of a frame (drmdisplaycomposition.cpp) to its atomic request
-- (drmdisplaycompositor.cpp).
use drm_hwcomposer.Base.{
  ℕ, ◌+◌, ◌≤◌, ◌≡◌, refl, sym, ap, ◌∙◌, inl, Bool, false, some, List, [], ◌∷◌, ◌++◌, ℤ, pos, length,
  null, select, All, All-weaken, arith,
}
use drm_hwcomposer.Resources.{Plane, Crtc, get_crtc_supported}
use drm_hwcomposer.Planner.{CompositionPlane, get_usable_planes, provision_planes}
use drm_hwcomposer.Planner.Stages.{holds, shows}
use drm_hwcomposer.Planner.Placed.{provision_planes-Placed}
use drm_hwcomposer.Composition.{
  Composition, frame, planned, Pools, remove_used, disable_all, index_layers, plan_frame, plan,
}
use drm_hwcomposer.Composition.Accounting.{has_id, PoolsIsSplit}
use drm_hwcomposer.Composition.Whole.{plan-frame}
use drm_hwcomposer.Composition.Exhaustive.{plan-once}
use drm_hwcomposer.Kernel.{Kernel, Request}
use drm_hwcomposer.Commit.{commit_planes}
use drm_hwcomposer.Commit.Duty.{Duty, AllFit, all_ask}
use drm_hwcomposer.Commit.Fits.{
  index_layers-IsIndexed, remove_used-Placed, disable_all-Commissioned, ShowsAll, duties,
  Commissioned-AllFit,
}
use drm_hwcomposer.Commit.Complete.{Adds, commit_planes-adds}

-- A pool that is not empty has a plane with an id.
select-holds :
    (q : Plane → Bool) (ps : List Plane)
    → null (select q ps) ≡ false
    → (p : Plane) × (1 ≤ holds (has_id p.id) ps)
select-holds q [] h = absurd (ground arith)
select-holds q (p ∷ ps) h = (p, ground arith)

usable-holds :
    (crtc : Crtc) (primary overlay : List Plane)
    → null (get_usable_planes crtc primary overlay) ≡ false
    → (p : Plane) × (1 ≤ holds (has_id p.id) primary + holds (has_id p.id) overlay)
unfolding get_usable_planes
usable-holds crtc [] overlay h =
    let (p, k) = select-holds (get_crtc_supported crtc) overlay h in (p, omega (arith, k))
usable-holds crtc (p ∷ ps) overlay h = (p, ground arith)

shows-null : (q : Plane → Bool) (cs : List CompositionPlane) → 1 ≤ shows q cs → null cs ≡ false
shows-null q [] h = absurd (omega arith)
shows-null q (c ∷ cs) h = refl

-- A plan of a frame, with the planes that it leaves disabled, that gives each plane of the pools one
-- duty.
pub record Assignment (c : Composition) (pools : Pools) : Type 0 where
  pub plan_made : Composition
  pub left : Pools
  pub planes : List CompositionPlane
  pub given : List Duty
  pub plans : plan c pools ≡ planned (pos 0) plan_made left
  pub disables :
      disable_all left.overlay (disable_all left.primary plan_made)
      ≡ record c { composition_planes = planes }
  pub fit : AllFit c.layers given planes
  pub some_plane : null planes ≡ false
  pub once :
      (x : ℕ)
      → duties (has_id x) given ≡ holds (has_id x) pools.primary + holds (has_id x) pools.overlay

module _ (c : Composition) (crtc : Crtc) (pools : Pools) where
  -- A frame for a CRTC that supports a plane of the pools, of which the one holds primary planes and
  -- the other none; and each plane of the pools can show each layer.
  pub record IsShowable : Type 0 where
    pub split : PoolsIsSplit pools
    pub frames : c.kind ≡ frame
    pub on_crtc : c.crtc ≡ some crtc
    pub usable : null (get_usable_planes crtc pools.primary pools.overlay) ≡ false
    pub primaries_show : All (ShowsAll c.layers) pools.primary
    pub overlays_show : All (ShowsAll c.layers) pools.overlay

  -- Then planning succeeds, whatever the planner's stages.
  pub frame-Assignment : IsShowable → Assignment c pools
  unfolding plan_frame
  frame-Assignment h =
      let P = ShowsAll c.layers in
      let n = length c.layers in
      let found : ℤ × List CompositionPlane =
        provision_planes c.planner (index_layers 0 c.layers) crtc pools.primary pools.overlay in
      let (ok, placed) =
        provision_planes-Placed P n crtc c.planner (index_layers 0 c.layers) pools.primary
          pools.overlay h.usable
          (All-weaken (λ x k. omega (arith, k)) _ (index_layers-IsIndexed 0 c.layers))
          h.primaries_show h.overlays_show in
      let (kept, pools_kept) =
        remove_used-Placed P n crtc found.1 pools (h.primaries_show, h.overlays_show) placed in
      let used = remove_used found.1 pools in
      let c1 = record c { composition_planes = used.0 } in
      let (cps2, e2, q2) =
        disable_all-Commissioned P n crtc used.1.primary c1 h.on_crtc
          (All-weaken (λ x k. inl k) _ kept) in
      let c2 = record c { composition_planes = cps2 } in
      let (cps3, e3, q3) = disable_all-Commissioned P n crtc used.1.overlay c2 h.on_crtc q2 in
      let (ds, fits, counted) = Commissioned-AllFit c.layers crtc cps3 q3 in
      let plans : plan c pools ≡ planned (pos 0) c1 used.1 =
        plan-frame c crtc pools h.frames h.on_crtc ∙ rw (ok, plan_frame) refl in
      let disables : disable_all used.1.overlay (disable_all used.1.primary c1)
          ≡ record c { composition_planes = cps3 } =
        rw e2 e3 in
      let all_once : (x : ℕ)
          → shows (has_id x) cps3
            ≡ holds (has_id x) pools.primary + holds (has_id x) pools.overlay =
        λ x.
          ap (λ (y : Composition). shows (has_id x) y.composition_planes) (sym disables)
          ∙ plan-once c c1 pools used.1 x h.split h.frames plans in
      let (p, one) = usable-holds crtc pools.primary pools.overlay h.usable in
      record {
        plan_made = c1;
        left = used.1;
        planes = cps3;
        given = ds;
        plans = plans;
        disables = disables;
        fit = fits;
        some_plane = shows-null (has_id p.id) cps3 (omega (arith, all_once p.id, one));
        once = λ x. counted (has_id x) ∙ all_once x;
      }

module _ {K : Type 0} (kernel : Kernel K) (adds : Adds kernel) where
  -- The loop over the planes of the composition adds to the request what the planes' duties ask for.
  pub Assignment-asks :
      (c : Composition) (pools : Pools) (a : Assignment c pools) (k : K) (ret : ℤ)
      (pset : List Request)
      → commit_planes kernel k c.layers a.planes ret pset ≡ some (pos 0, pset ++ all_ask a.given)
  Assignment-asks c pools a k ret pset =
      commit_planes-adds kernel adds k c.layers a.given a.planes ret pset a.fit
      ∙ rw a.some_plane refl
