-- ===== src/Display/Shown.antt =====
-- A frame from PresentDisplay (drmhwctwo.cpp) to the atomic commit that shows it.
use drm_hwcomposer.Base.{
  ◌≡◌, refl, ap, ◌∙◌, Bool, true, false, some, List, [], ◌∷◌, ◌++◌, ℤ, pos, arith, Option-cases,
  inl, inr, if◌then◌else◌, is_set, null,
}
use drm_hwcomposer.Resources.{Crtc}
use drm_hwcomposer.Layer.{DrmLayer}
use drm_hwcomposer.Planner.{CompositionPlane}
use drm_hwcomposer.Composition.{Composition, new_composition, init, set_layers, Pools, frame}
use drm_hwcomposer.Kernel.{Kernel, Request, allow_modeset_flag}
use drm_hwcomposer.Commit.Duty.{all_ask}
use drm_hwcomposer.Commit.Planned.{Assignment, IsShowable, frame-Assignment, Assignment-asks}
use drm_hwcomposer.Compositor.Testing.{ChecksOnly}
use drm_hwcomposer.Compositor.Accepted.{
  Accepts, Asks, IsSteady, fence_asked, showing, apply_composition-steady,
}
use drm_hwcomposer.Display.Layer.{no_error, HwcLayer, populate_drm_layer}
use drm_hwcomposer.Display.State.{Display, Layers, change_layer}
use drm_hwcomposer.Display.Zmap.{Entry, frame_entries}
use drm_hwcomposer.Display.Compose.{
  Platform, import_entries, give_fence, give_fences, add_fence_to_retire_fence, commit_composition,
  plan_composition, create_composition, settle_present, present_display,
}

module _ {K : Type 0} where
  -- The composition of a frame with these layers, and the pools that it is planned with.
  abbrev pub frame_of : List DrmLayer → Display K → Composition
  frame_of ls d = record new_composition {
    crtc = d.crtc;
    planner = d.planner;
    frame_no = d.frame_no;
    kind = frame;
    geometry_changed = true;
    layers = ls;
  }

  abbrev pub display_pools : Display K → Pools
  display_pools d = record { primary = d.primary_planes; overlay = d.overlay_planes }

-- The layers of the frame that PresentDisplay shows, as they are imported.
abbrev pub imported : {K : Type 0} → Platform → Display K → ℤ × List DrmLayer × List Entry
imported platform d = import_entries platform.importer (frame_entries false d.layers d.client_layer)

otherwise : {A : Type 0} (b : Bool) (x : A) {y z : A} → b ≡ false → y ≡ z → (if b then x else y) ≡ z
otherwise true x e h = absurd (ground arith)
otherwise false x e h = h

module _ {K : Type 0} where
  give_fence-keeps :
      (e : Entry) (d : Display K)
      → (layers : Layers) × (client_layer : HwcLayer) × (give_fence e d
          ≡ record d { layers = layers; client_layer = client_layer })
  unfolding give_fence
  give_fence-keeps e d = elim (Option-cases e.handle) [
    | inl c ↦ (d.layers, (populate_drm_layer d.client_layer).1, rw (c, give_fence) refl)
    | inr (h, c) ↦ (
      change_layer h (λ l. (populate_drm_layer l).1) d.layers,
      d.client_layer,
      rw (c, give_fence) refl,
    )
  ]

  give_fences-keeps :
      (es : List Entry) (d : Display K)
      → (layers : Layers) × (client_layer : HwcLayer) × (give_fences es d
          ≡ record d { layers = layers; client_layer = client_layer })
  unfolding give_fences
  give_fences-keeps [] d = (d.layers, d.client_layer, refl)
  give_fences-keeps (e ∷ es) d =
      let (ls, l, kept) = give_fence-keeps e d in
      let (ls', l', rest) = give_fences-keeps es (record d { layers = ls; client_layer = l }) in
      (ls', l', ap (give_fences es) kept ∙ rest)

module _ {K : Type 0} (kernel : Kernel K) (accepts : Accepts kernel) (platform : Platform) where
  commit_composition-shown :
      (ls : List DrmLayer) (cps : List CompositionPlane) (crtc : Crtc) (rs : List Request)
      (d : Display K)
      → IsSteady crtc d.compositor
      → Asks kernel accepts crtc (record (frame_of ls d) { composition_planes = cps }) rs
      → commit_composition kernel platform false
          (record (frame_of ls d) { composition_planes = cps })
          d
        ≡ some (
          no_error,
          record d {
            compositor =
                showing kernel accepts crtc
                  (record (frame_of ls d) { composition_planes = cps })
                  rs
                  d.compositor;
          },
        )
  unfolding commit_composition add_fence_to_retire_fence init set_layers
  commit_composition-shown ls cps crtc rs d steady asks =
      rw
        (
          apply_composition-steady kernel accepts crtc
              (record (frame_of ls d) { composition_planes = cps }) rs d.compositor refl refl steady
              asks,
          commit_composition,
        )
        refl

  abbrev shown_by :
      (ls : List DrmLayer) (crtc : Crtc) (d : Display K)
      → Assignment (frame_of ls d) (display_pools d)
      → Display K
  shown_by ls crtc d a = record d {
    compositor =
        showing kernel accepts crtc (record (frame_of ls d) { composition_planes = a.planes })
          (all_ask a.given) d.compositor;
  }

  plan_composition-shown :
      (ls : List DrmLayer) (crtc : Crtc) (d : Display K)
      (a : Assignment (frame_of ls d) (display_pools d))
      → IsSteady crtc d.compositor
      → plan_composition kernel platform false ls d ≡ some (no_error, shown_by ls crtc d a)
  unfolding plan_composition init set_layers
  plan_composition-shown ls crtc d a steady =
      rw (a.plans, plan_composition)
        (rw (a.disables, plan_composition)
          (commit_composition-shown ls a.planes crtc (all_ask a.given) d steady (λ k ret pset.
            Assignment-asks kernel accepts.adds (frame_of ls d) (display_pools d) a k ret pset)))

  -- The frame is not empty, its buffers can be imported, the planes of the display can show it, and
  -- no mode is waiting.
  pub record IsPresentable (crtc : Crtc) (d : Display K) : Type 0 where
    pub some_entry : null (frame_entries false d.layers d.client_layer) ≡ false
    pub imports : (imported platform d).0 ≡ pos 0
    pub showable : IsShowable (frame_of (imported platform d).1 d) crtc (display_pools d)
    pub steady : IsSteady crtc d.compositor

  create_composition-shown :
      (crtc : Crtc) (d : Display K)
      (a : Assignment (frame_of (imported platform d).1 d) (display_pools d))
      → IsPresentable crtc d
      → (layers : Layers) × (client_layer : HwcLayer) × (create_composition kernel platform false d
          ≡ some (
            no_error,
            shown_by
                (imported platform d).1
                crtc
                (record d { layers = layers; client_layer = client_layer })
                a,
          ))
  unfolding create_composition
  create_composition-shown crtc d a p =
      let (layers, client_layer, kept) = give_fences-keeps (imported platform d).2 d in
      (
        layers,
        client_layer,
        otherwise _ _ p.some_entry (
            otherwise _ _ (ap is_set p.imports) (
              ap (plan_composition kernel platform false (imported platform d).1) kept
              ∙ plan_composition-shown (imported platform d).1 crtc
                  (record d { layers = layers; client_layer = client_layer }) a p.steady)),
      )

  -- A frame that is not empty and whose buffers can be imported is presented on a display whose
  -- planes can show its layers, with no mode waiting, over a kernel that accepts what it is asked and
  -- only checks in a test. Then PresentDisplay succeeds and hands out the retire fence that the
  -- display holds, and the kernel is left as one commit leaves it, whose request asks for the
  -- out-fence, where the CRTC has one, and for what a list of duties asks, with one duty for each
  -- plane of the display: to show a layer of the frame or to be off.
  pub present_display-commits :
      (crtc : Crtc) (d : Display K)
      → ChecksOnly kernel
      → IsPresentable crtc d
      → (a : Assignment (frame_of (imported platform d).1 d) (display_pools d)) × (d' : Display K)
        × (present_display kernel platform d ≡ some (no_error, some d.retire_fence, d'))
        × (d'.compositor.kernel_state
            ≡ (kernel.commit d.compositor.kernel_state
                (fence_asked crtc ++ all_ask a.given)
                allow_modeset_flag).1)
  unfolding present_display settle_present
  present_display-commits crtc d checks p =
      let a =
        frame-Assignment (frame_of (imported platform d).1 d) crtc (display_pools d) p.showable in
      let (layers, client_layer, created) = create_composition-shown crtc d a p in
      let d1 =
        shown_by (imported platform d).1 crtc
          (record d { layers = layers; client_layer = client_layer }) a in
      (
        a,
        (settle_present kernel platform no_error d1).2,
        rw (created, present_display) refl,
        rw (checks d.compositor.kernel_state (fence_asked crtc ++ all_ask a.given)) refl,
      )
