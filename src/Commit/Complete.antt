-- ===== src/Commit/Complete.antt =====
-- The request that the loop over the planes in CommitFrame builds when nothing stands in its way.
use drm_hwcomposer.Base.{
  ℕ, ◌≡◌, Bool-cases, inl, inr, Bool, true, false, not, ◌||◌, ◌&&◌, some, List, [], ◌∷◌, ◌++◌, ℤ,
  pos, arith, if◌then◌else◌, ◌==◌, is_neg, null,
}
use mathlib.Core.List.{append-nil, append_assoc}
use drm_hwcomposer.Resources.{Plane, Crtc}
use drm_hwcomposer.Layer.{DrmLayer, Bo}
use drm_hwcomposer.Planner.{CompositionPlane}
use drm_hwcomposer.Kernel.{Kernel, Request, add_property, add_both, add_each}
use drm_hwcomposer.Commit.Duty.{
  Duty, off, on, CanShow, Fits, AllFit, when, geometry, layer_requests-geometry, asks, all_ask,
}
use drm_hwcomposer.Commit.{
  next, request, rotation_of, plane_alpha, layer_requests, commit_disable, optional_property,
  commit_layer, show_or_disable, commit_fence, commit_buffer, commit_source, commit_plane,
  commit_planes,
}

-- drmModeAtomicAddProperty does not fail, as long as there is memory.
abbrev pub Adds : {K : Type 0} → Kernel K → Type 0
Adds {K} kernel =
    (k : K) (pset : List Request) (r : Request) → is_neg (kernel.add_result k pset r) ≡ false

if_same : (b : Bool) (x : ℤ) → (if b then x else x) ≡ x
if_same true x = λ i. x
if_same false x = λ i. x

guard : (a b : Bool) → (a || not b) ≡ true → (not a && b) ≡ false
guard a b h = ground arith

module _ {K : Type 0} (kernel : Kernel K) (adds : Adds kernel) (k : K) where
  add_property-adds :
      (pset : List Request) (r : Request)
      → add_property kernel k pset r ≡ (kernel.add_result k pset r, pset ++ r ∷ [])
  unfolding add_property
  add_property-adds pset r = rw (adds k pset r)

  add_both-adds :
      (pset : List Request) (a b : Request)
      → add_both kernel k pset a b ≡ (false, pset ++ a ∷ b ∷ [])
  unfolding add_both
  add_both-adds pset a b =
      rw (adds k pset a, add_both, add_property)
        (rw (adds k (pset ++ a ∷ []) b, add_both, add_property)
          (simp append_assoc (rw (adds k pset a, adds k (pset ++ a ∷ []) b))))

  add_each-adds : (pset rs : List Request) → add_each kernel k pset rs ≡ (false, pset ++ rs)
  unfolding add_each
  add_each-adds pset [] = rw append-nil
  add_each-adds pset (r ∷ rs) =
      rw (add_property-adds pset r, add_each)
        (rw (adds k pset r) (rw (add_each-adds (pset ++ r ∷ []) rs, add_each) (simp append_assoc)))

  commit_disable-adds :
      (p : Plane) (pset : List Request)
      → commit_disable kernel k p pset ≡ next (pos 0) (pset ++ asks (off p))
  unfolding commit_disable asks
  commit_disable-adds p pset =
      rw (add_both-adds pset (request p p.crtc_property (pos 0)) (request p p.fb_property (pos 0)))

  optional_property-adds :
      (p : Plane) (property v : ℕ) (pset : List Request)
      → optional_property kernel k p property v pset
        ≡ next (pos 0) (pset ++ when (not (property == 0)) (request p property (pos v)))
  unfolding optional_property
  optional_property-adds p property v pset = elim (Bool-cases (property == 0)) [
    | inl e ↦ rw (e, optional_property) (rw append-nil)
    | inr e ↦
        rw (e, optional_property)
          (rw (adds k pset (request p property (pos v)), optional_property, add_property)
            (rw (adds k pset (request p property (pos v)))))
  ]

  commit_layer-adds :
      (p : Plane) (crtc : Crtc) (l : DrmLayer) (bo : Bo) (pset : List Request)
      → CanShow p l bo
      → commit_layer kernel k p (some crtc) l bo.fb_id pset
        ≡ next (pos 0) (
            pset
            ++ geometry p crtc.id bo.fb_id l
            ++ when
                (not (p.rotation_property == 0))
                (request p p.rotation_property (pos (rotation_of l.transform)))
            ++ when
                (not (p.alpha_property == 0))
                (request p p.alpha_property (pos (plane_alpha l))))
  unfolding commit_layer
  commit_layer-adds p crtc l bo pset ok =
      let rotation = rotation_of l.transform in
      let alpha = plane_alpha l in
      let shown = pset ++ layer_requests p crtc.id bo.fb_id l in
      let turned =
        shown
        ++ when (not (p.rotation_property == 0)) (request p p.rotation_property (pos rotation)) in
      rw⁻¹ (layer_requests-geometry p crtc.id bo.fb_id l) (
        rw (guard (rotation == 1) (p.rotation_property == 0) ok.rotation, commit_layer)
          (rw (guard (alpha == 0xffff) (p.alpha_property == 0) ok.alpha, commit_layer)
            (rw (add_each-adds pset (layer_requests p crtc.id bo.fb_id l), commit_layer)
              (rw (optional_property-adds p p.rotation_property rotation shown, commit_layer)
                (rw (optional_property-adds p p.alpha_property alpha turned, commit_layer)
                  (simp append_assoc))))))

  commit_fence-adds :
      (p : Plane) (crtc : Crtc) (l : DrmLayer) (bo : Bo) (ret : ℤ) (pset : List Request)
      → CanShow p l bo
      → commit_fence kernel k p (some crtc) l bo.fb_id ret pset
        ≡ next (pos 0) (pset ++ asks (on p crtc l bo))
  unfolding commit_fence show_or_disable asks
  commit_fence-adds p crtc l bo ret pset ok =
      let fence = request p p.in_fence_fd_property l.acquire_fence in
      elim (Bool-cases (is_neg l.acquire_fence)) [
        | inl e ↦
            rw (e, asks, commit_fence)
              (rw (ok.valid_fb, show_or_disable)
                (rw (commit_layer-adds p crtc l bo pset ok) (simp append_assoc)))
        | inr e ↦
            let has_fence : (p.in_fence_fd_property == 0) ≡ false = ground (arith, ok.fence) in
            rw (e, asks, commit_fence)
              (rw (has_fence, commit_fence)
                (rw (add_property-adds pset fence, commit_fence)
                  (rw (adds k pset fence, commit_fence)
                    (rw (ok.valid_fb, show_or_disable)
                      (rw (commit_layer-adds p crtc l bo (pset ++ fence ∷ []) ok)
                        (simp append_assoc))))))
      ]

  commit_plane-adds :
      (layers : List DrmLayer) (d : Duty) (c : CompositionPlane) (ret : ℤ) (pset : List Request)
      → Fits layers d c
      → commit_plane kernel k layers c ret pset ≡ next (pos 0) (pset ++ asks d)
  unfolding commit_plane commit_source commit_buffer asks geometry plane_alpha
  commit_plane-adds layers (off p) c ret pset (e, f) =
      rw (e, f, commit_plane) (commit_disable-adds p pset)
  commit_plane-adds layers (on p crtc l bo) c ret pset (i, e, f, g, h, j, ok) =
      rw (e, f, g, h, commit_plane)
        (rw (j, commit_source)
          (rw (ok.imported, commit_buffer) (commit_fence-adds p crtc l bo ret pset ok)))

  -- When no call of drmModeAtomicAddProperty fails, and each plane of a composition is set up for a
  -- duty, the loop over the planes succeeds, and it adds to the request exactly what the planes'
  -- duties ask for, in the order of the planes.
  pub commit_planes-adds :
      (layers : List DrmLayer) (ds : List Duty) (cs : List CompositionPlane) (ret : ℤ)
      (pset : List Request)
      → AllFit layers ds cs
      → commit_planes kernel k layers cs ret pset
        ≡ some (if null cs then ret else pos 0, pset ++ all_ask ds)
  unfolding commit_planes
  commit_planes-adds layers [] [] ret pset h = rw append-nil
  commit_planes-adds layers [] (c ∷ cs) ret pset h = absurd h
  commit_planes-adds layers (d ∷ ds) [] ret pset h = absurd h
  commit_planes-adds layers (d ∷ ds) (c ∷ cs) ret pset h =
      rw (commit_plane-adds layers d c ret pset h.0, commit_planes)
        (rw (commit_planes-adds layers ds cs (pos 0) (pset ++ asks d) h.1)
          (simp (append_assoc, if_same)))
