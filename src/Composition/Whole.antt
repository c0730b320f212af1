-- ===== src/Composition/Whole.antt =====
-- With the greedy stage alone, a frame that fits the planes is shown whole: Plan and AddPlaneDisable
-- (drmdisplaycomposition.cpp) over the planner (platform.cpp).
use drm_hwcomposer.Base.{
  ℕ, ◌+◌, ◌≤◌, ◌<◌, ◌≡◌, refl, ap, ◌∙◌, Bool, false, not, some, List, [], ◌∷◌, pos, length, null,
  select, count_if, count_if-append, if◌then◌else◌, ◌==◌, ltb, arith,
}
use drm_hwcomposer.Resources.{Plane, Crtc}
use drm_hwcomposer.Layer.{DrmLayer}
use drm_hwcomposer.Planner.{
  CompositionPlane, disable, layer, greedy_stage, get_usable_planes, provision_planes,
}
use drm_hwcomposer.Planner.Stages.{pair_up, provision_planes-greedy}
use drm_hwcomposer.Composition.{
  Composition, frame, planned, Pools, sort, take_plane, remove_used, add_plane_disable,
  disabled_plane, disable_all, index_layers, plan_frame, plan,
}

-- The plane shows the layer with this index.
abbrev pub shows_layer : ℕ → CompositionPlane → Bool
shows_layer i c = elim c.kind [
  | disable ↦ false
  | layer ↦ not (null (select (λ x. x == i) c.source_layers))
]

abbrev pub showings : ℕ → List CompositionPlane → ℕ
showings i = count_if (shows_layer i)

pair_up-showings :
    (i j : ℕ) (crtc : Crtc) (ls : List DrmLayer) (ps : List Plane)
    → length ls ≤ length ps
    → showings i (pair_up crtc (index_layers j ls) ps)
      ≡ (if ltb i j then 0 else if ltb i (j + length ls) then 1 else 0)
unfolding index_layers
pair_up-showings i j crtc [] ps h = ground arith
pair_up-showings i j crtc (l ∷ ls) [] h = absurd (omega arith)
pair_up-showings i j crtc (l ∷ ls) (p ∷ ps) h =
    ground (arith, pair_up-showings i (j + 1) crtc ls ps (omega arith))

-- A plan of this form has its source layers in order.
remove_used-pair_up :
    (crtc : Crtc) (ls : List (ℕ × Bool)) (ps : List Plane) (pools : Pools)
    → (remove_used (pair_up crtc ls ps) pools).0 ≡ pair_up crtc ls ps
unfolding remove_used sort
remove_used-pair_up crtc [] ps pools = refl
remove_used-pair_up crtc (l ∷ ls) [] pools = refl
remove_used-pair_up crtc (l ∷ ls) (p ∷ ps) pools =
    rw (remove_used-pair_up crtc ls ps (take_plane p pools)) refl

disable_all-showings :
    (i : ℕ) (ps : List Plane) (c : Composition)
    → showings i (disable_all ps c).composition_planes ≡ showings i c.composition_planes
unfolding disable_all
disable_all-showings i [] c = refl
disable_all-showings i (p ∷ ps) c = ground (
  arith,
  disable_all-showings i ps (add_plane_disable p c),
  count_if-append {0} (shows_layer i) c.composition_planes (disabled_plane c.crtc p ∷ []),
)

plan_frame-found :
    (c : Composition) (crtc : Crtc) (pools : Pools) (cps : List CompositionPlane)
    → provision_planes c.planner (index_layers 0 c.layers) crtc pools.primary pools.overlay
      ≡ (pos 0, cps)
    → plan_frame crtc c pools
      ≡ planned
          (pos 0)
          (record c { composition_planes = (remove_used cps pools).0 })
          (remove_used cps pools).1
unfolding plan_frame
plan_frame-found c crtc pools cps e = rw (e, plan_frame) refl

pub plan-frame :
    (c : Composition) (crtc : Crtc) (pools : Pools)
    → c.kind ≡ frame
    → c.crtc ≡ some crtc
    → plan c pools ≡ plan_frame crtc c pools
unfolding plan
plan-frame c crtc pools frames e = ground arith

not_null : {A : Type 0} (xs : List A) (n : ℕ) → n < length xs → null xs ≡ false
not_null [] n h = absurd (omega arith)
not_null (x ∷ xs) n h = refl

-- A frame with no more layers than planes that the CRTC supports is planned with the greedy stage
-- alone: planning succeeds, and of the composition with the planes left over disabled exactly one
-- plane shows each layer.
pub plan-shows-each :
    (c : Composition) (crtc : Crtc) (pools : Pools) (i : ℕ)
    → c.kind ≡ frame
    → c.crtc ≡ some crtc
    → c.planner ≡ greedy_stage ∷ []
    → length c.layers ≤ length (get_usable_planes crtc pools.primary pools.overlay)
    → i < length c.layers
    → (c' : Composition) × (left : Pools) × (plan c pools ≡ planned (pos 0) c' left)
      × (showings i (disable_all left.overlay (disable_all left.primary c')).composition_planes ≡ 1)
plan-shows-each c crtc pools i frames e greedy fits below =
    let layers = index_layers 0 c.layers in
    let usable = get_usable_planes crtc pools.primary pools.overlay in
    let paired = pair_up crtc layers usable in
    let found : provision_planes c.planner layers crtc pools.primary pools.overlay
        ≡ (pos 0, paired) =
      ap (λ stages. provision_planes stages layers crtc pools.primary pools.overlay) greedy
      ∙ provision_planes-greedy layers crtc pools.primary pools.overlay
      ∙ rw (not_null usable i (omega arith)) refl in
    let used = remove_used paired pools in
    let c1 = record c { composition_planes = used.0 } in
    (
      c1,
      used.1,
      plan-frame c crtc pools frames e ∙ plan_frame-found c crtc pools paired found,
      disable_all-showings i used.1.overlay (disable_all used.1.primary c1)
          ∙ disable_all-showings i used.1.primary c1
          ∙ ap (showings i) (remove_used-pair_up crtc layers usable pools)
          ∙ ground (arith, pair_up-showings i 0 crtc c.layers usable fits),
    )
