-- ===== src/Display/Present.antt =====
-- The retire fence that PresentDisplay hands to SurfaceFlinger.
use drm_hwcomposer.Base.{
  ◌≡◌, refl, ◌∙◌, ◌⊎◌, inl, inr, Bool, true, false, Option, none, some, List, [], ◌∷◌, ℤ, neg,
  arith, Option-cases, Bool-cases, is_set,
}
use drm_hwcomposer.Resources.{Plane}
use drm_hwcomposer.Kernel.{Kernel}
use drm_hwcomposer.Layer.{DrmLayer}
use drm_hwcomposer.Composition.{
  Composition, new_composition, init, set_layers, disable_all, add_plane_disable, Pools, Planned,
  planned, null_crtc, plan, plan_frame,
}
use drm_hwcomposer.Compositor.Apply.{apply_composition, test_composition}
use drm_hwcomposer.Display.Layer.{Error}
use drm_hwcomposer.Display.State.{Display}
use drm_hwcomposer.Display.Zmap.{Entry, frame_entries}
use drm_hwcomposer.Display.Compose.{
  Platform, import_entries, give_fence, give_fences, add_fence_to_retire_fence, commit_composition,
  plan_composition, create_composition, settle_present, present_display,
}

-- No retire fence is held.
abbrev pub NoFence : {K : Type 0} → Display K → Type 0
NoFence d = (d.retire_fence ≡ neg 1) × (d.next_retire_fence ≡ neg 1)

disable_all-out_fence :
    (ps : List Plane) (c : Composition) → (disable_all ps c).out_fence ≡ c.out_fence
unfolding disable_all add_plane_disable
disable_all-out_fence [] c = refl
disable_all-out_fence (p ∷ ps) c = disable_all-out_fence ps (add_plane_disable p c)

plan-out_fence :
    (c c' : Composition) (pools pools' : Pools) (ret : ℤ)
    → plan c pools ≡ planned ret c' pools'
    → c'.out_fence ≡ c.out_fence
unfolding plan plan_frame
plan-out_fence c c' pools pools' ret h = elim (Option-cases c.crtc) [
  | inl e ↦ ground arith
  | inr (crtc, e) ↦ ground arith
]

Planned-cases :
    (p : Planned)
    → (p ≡ null_crtc) ⊎ ((ret : ℤ) × (c : Composition) × (left : Pools) × (p ≡ planned ret c left))
Planned-cases null_crtc = inl refl
Planned-cases (planned ret c left) = inr (ret, c, left, refl)

module _ {K : Type 0} where
  NoFence-give_fence : (e : Entry) (d : Display K) → NoFence d → NoFence (give_fence e d)
  unfolding give_fence
  NoFence-give_fence e d h = elim (Option-cases e.handle) [
    | inl c ↦ rw (c, give_fence) h
    | inr (x, c) ↦ rw (c, give_fence) h
  ]

  NoFence-give_fences : (es : List Entry) (d : Display K) → NoFence d → NoFence (give_fences es d)
  unfolding give_fences
  NoFence-give_fences [] d h = h
  NoFence-give_fences (e ∷ es) d h =
      NoFence-give_fences es (give_fence e d) (NoFence-give_fence e d h)

  module _ (kernel : Kernel K) (platform : Platform) where
    NoFence-commit :
        (test : Bool) (c : Composition) (d d' : Display K) (e : Error)
        → c.out_fence ≡ neg 1
        → NoFence d
        → commit_composition kernel platform test c d ≡ some (e, d')
        → NoFence d'
    unfolding commit_composition add_fence_to_retire_fence
    NoFence-commit true c d d' e k h run =
        elim (Option-cases (test_composition kernel c d.compositor)) [
          | inl n ↦ ground arith
          | inr ((ret, s, c'), n) ↦ ground arith
        ]
    NoFence-commit false c d d' e k h run =
        elim (Option-cases
          (apply_composition kernel (record c { out_fence = neg 1 }) d.compositor)) [
            | inl n ↦ ground arith
            | inr ((ret, s), n) ↦ ground arith
          ]

    NoFence-plan :
        (test : Bool) (ls : List DrmLayer) (d d' : Display K) (e : Error)
        → NoFence d
        → plan_composition kernel platform test ls d ≡ some (e, d')
        → NoFence d'
    unfolding plan_composition init set_layers
    NoFence-plan test ls d d' e h run =
        let fresh = (init d.crtc d.planner d.frame_no new_composition).1 in
        let filled = (set_layers ls true fresh).1 in
        let pools : Pools = record { primary = d.primary_planes; overlay = d.overlay_planes } in
        elim (Planned-cases (plan filled pools)) [
          | inl n ↦ ground arith
          | inr (ret, c, left, n) ↦ elim (Bool-cases (is_set ret)) [
            | inl b ↦ ground arith
            | inr b ↦
                NoFence-commit test (disable_all left.overlay (disable_all left.primary c)) d d' e
                  (disable_all-out_fence left.overlay (disable_all left.primary c)
                    ∙ disable_all-out_fence left.primary c
                    ∙ plan-out_fence filled c pools left ret n)
                  h (ground arith)
          ]
        ]

    pub NoFence-create :
        (test : Bool) (d d' : Display K) (e : Error)
        → NoFence d
        → create_composition kernel platform test d ≡ some (e, d')
        → NoFence d'
    unfolding create_composition
    NoFence-create test d d' e h run =
        let entries = frame_entries test d.layers d.client_layer in
        let imported = import_entries platform.importer entries in
        let given = NoFence-give_fences imported.2 d h in
        ground (arith, given, NoFence-plan test imported.1 (give_fences imported.2 d) d' e given)

    -- On a display that holds no retire fence, which is how it starts, PresentDisplay never hands
    -- out one and never comes to hold one, whatever out-fences the kernel gives with the commits.
    pub present_display-NoFence :
        (d d' : Display K) (e : Error) (fence : Option ℤ)
        → NoFence d
        → present_display kernel platform d ≡ some (e, fence, d')
        → ((fence ≡ none) ⊎ (fence ≡ some (neg 1))) × NoFence d'
    unfolding present_display settle_present
    present_display-NoFence d d' e fence h run =
        elim (Option-cases (create_composition kernel platform false d)) [
          | inl n ↦ ground arith
          | inr ((e', d1), n) ↦ ground (arith, NoFence-create false d d1 e' h n)
        ]
