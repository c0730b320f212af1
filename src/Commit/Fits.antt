-- ===== src/Commit/Fits.antt =====
-- What Plan and AddPlaneDisable make of the planes of a frame (drmdisplaycomposition.cpp): each plane
-- of the composition is set up for a duty.
use drm_hwcomposer.Base.{
  ℕ, suc, zero, ◌+◌, ◌<◌, ◌≡◌, refl, ap, ◌⊎◌, inl, inr, Bool, some, List, [], ◌∷◌, length,
  get_elem?, count_if, All, All-append, All-weaken, arith,
}
use drm_hwcomposer.Resources.{Plane, Crtc}
use drm_hwcomposer.Layer.{DrmLayer, Bo}
use drm_hwcomposer.Planner.{CompositionPlane}
use drm_hwcomposer.Planner.Stages.{shows}
use drm_hwcomposer.Planner.Placed.{Placed}
use drm_hwcomposer.Composition.{
  Composition, Pools, sort, erase_plane, take_plane, remove_used, disabled_plane, disable_all,
  index_layers,
}
use drm_hwcomposer.Commit.Duty.{Duty, off, on, CanShow, Fits, AllFit}

pub index_layers-IsIndexed :
    (i : ℕ) (ls : List DrmLayer) → All (λ l. l.0 < i + length ls) (index_layers i ls)
unfolding index_layers
index_layers-IsIndexed i [] = tt
index_layers-IsIndexed i (l ∷ ls) =
    (omega arith, All-weaken (λ x h. omega (arith, h)) _ (index_layers-IsIndexed (i + 1) ls))

module _ (P : Plane → Type 0) where
  erase_plane-All : (p : Plane) (ps : List Plane) → All P ps → All P (erase_plane p ps)
  unfolding erase_plane
  erase_plane-All p [] h = tt
  erase_plane-All p (q ∷ ps) h = ground (arith, erase_plane-All p ps h.1)

  abbrev pub AllPools : Pools → Type 0
  AllPools pools = All P pools.primary × All P pools.overlay

  take_plane-AllPools : (p : Plane) (pools : Pools) → AllPools pools → AllPools (take_plane p pools)
  unfolding take_plane
  take_plane-AllPools p pools h =
      ground (arith, erase_plane-All p pools.primary h.0, erase_plane-All p pools.overlay h.1)

  -- The end of Plan leaves planes that show one layer as they are.
  pub remove_used-Placed :
      (n : ℕ) (crtc : Crtc) (cps : List CompositionPlane) (pools : Pools)
      → AllPools pools
      → All (Placed P n crtc) cps
      → All (Placed P n crtc) (remove_used cps pools).0 × AllPools (remove_used cps pools).1
  unfolding remove_used sort
  remove_used-Placed n crtc [] pools h q = (tt, h)
  remove_used-Placed n crtc (c ∷ cps) pools h ((p, i, has, below, e), q) =
      let (more, left) =
        remove_used-Placed n crtc cps (take_plane p pools) (take_plane-AllPools p pools h) q in
      let sorted : CompositionPlane → CompositionPlane =
        λ x. record x { source_layers = sort x.source_layers } in
      rw (e, remove_used) (((p, i, has, below, ap sorted e), more), left)

  -- A plane of the composition shows a layer, or is disabled.
  abbrev pub Commissioned : ℕ → Crtc → CompositionPlane → Type 0
  Commissioned n crtc c = Placed P n crtc c ⊎ ((p : Plane) × (c ≡ disabled_plane (some crtc) p))

  pub disable_all-Commissioned :
      (n : ℕ) (crtc : Crtc) (ps : List Plane) (c : Composition)
      → c.crtc ≡ some crtc
      → All (Commissioned n crtc) c.composition_planes
      → (cps : List CompositionPlane) × (disable_all ps c ≡ record c { composition_planes = cps })
        × All (Commissioned n crtc) cps
  unfolding disable_all
  disable_all-Commissioned n crtc [] c e q = (c.composition_planes, refl, q)
  disable_all-Commissioned n crtc (p ∷ ps) c e q = disable_all-Commissioned n crtc ps _ e (
      All-append (Commissioned n crtc) c.composition_planes _ q
        (inr (p, ap (λ x. disabled_plane x p) e), tt))

abbrev pub duty_plane : Duty → Plane
duty_plane (off p) = p
duty_plane (on p crtc l bo) = p

-- How many duties are for the planes that pass a test.
abbrev pub duties : (Plane → Bool) → List Duty → ℕ
duties q = count_if (λ d. q (duty_plane d))

module _ (layers : List DrmLayer) where
  -- The plane can show every layer of the frame.
  abbrev pub ShowsAll : Plane → Type 0
  ShowsAll p = All (λ l. (bo : Bo) × CanShow p l bo) layers

  lookup-CanShow :
      (p : Plane) (ls : List DrmLayer) (i : ℕ)
      → i < length ls
      → All (λ l. (bo : Bo) × CanShow p l bo) ls
      → (l : DrmLayer) × (bo : Bo) × (get_elem? ls i ≡ some l) × CanShow p l bo
  lookup-CanShow p [] i h a = absurd (omega arith)
  lookup-CanShow p (l ∷ ls) zero h a = (l, a.0.0, refl, a.0.1)
  lookup-CanShow p (l ∷ ls) (suc i) h a = lookup-CanShow p ls i (omega arith) a.1

  Commissioned-Fits :
      (crtc : Crtc) (c : CompositionPlane)
      → Commissioned ShowsAll (length layers) crtc c
      → (d : Duty) × Fits layers d c × (c.plane ≡ some (duty_plane d))
  Commissioned-Fits crtc c (inl (p, i, has, below, e)) =
      let (l, bo, at, can) = lookup-CanShow p layers i below has in
      let plane = ap (λ (x : CompositionPlane). x.plane) e in
      (
        on p crtc l bo,
        (
          i,
          plane,
          ap (λ (x : CompositionPlane). x.kind) e,
          ap (λ (x : CompositionPlane). x.crtc) e,
          ap (λ (x : CompositionPlane). x.source_layers) e,
          at,
          can,
        ),
        plane,
      )
  Commissioned-Fits crtc c (inr (p, e)) =
      let plane = ap (λ (x : CompositionPlane). x.plane) e in
      (off p, (plane, ap (λ (x : CompositionPlane). x.kind) e), plane)

  pub Commissioned-AllFit :
      (crtc : Crtc) (cs : List CompositionPlane)
      → All (Commissioned ShowsAll (length layers) crtc) cs
      → (ds : List Duty) × AllFit layers ds cs × ((q : Plane → Bool) → duties q ds ≡ shows q cs)
  Commissioned-AllFit crtc [] a = ([], tt, λ q. refl)
  Commissioned-AllFit crtc (c ∷ cs) a =
      let (d, fits, e) = Commissioned-Fits crtc c a.0 in
      let (ds, all_fit, counted) = Commissioned-AllFit crtc cs a.1 in
      (d ∷ ds, (fits, all_fit), λ q. ground (arith, e, counted q))
