-- ===== src/Compositor/Accepted.antt =====
-- CommitFrame and ApplyComposition on a frame that the kernel accepts (drmdisplaycompositor.cpp).
use drm_hwcomposer.Base.{
  ℕ, suc, ◌≡◌, refl, ap, ◌∙◌, Bool, true, false, not, none, some, List, [], ◌++◌, ℤ, pos, arith,
  Bool-cases, inl, inr, if◌then◌else◌, ◌==◌, holds-if,
}
use drm_hwcomposer.Resources.{Crtc, ok}
use drm_hwcomposer.Connector.{Connector}
use drm_hwcomposer.Composition.{Composition, frame}
use drm_hwcomposer.Kernel.{Kernel, Request, out_fence_of, add_property}
use drm_hwcomposer.Commit.{commit_planes}
use drm_hwcomposer.Commit.Duty.{when}
use drm_hwcomposer.Commit.Complete.{Adds}
use drm_hwcomposer.Compositor.State.{Compositor, ModeState, flatten_countdown_init}
use drm_hwcomposer.Compositor.Frame.{
  writeback_part, out_fence_part, modeset_part, request_head, commit_flags, after_commit,
  commit_request, commit_on, commit_frame,
}
use drm_hwcomposer.Compositor.Apply.{
  apply_frame, apply_frame_composition, dispatch, apply_composition,
}

unless : {A : Type 0} (b : Bool) (x : A) {y z : A} → b ≡ true → y ≡ z → (if not b then x else y) ≡ z
unless true x e h = h
unless false x e h = absurd (ground arith)

-- A kernel that has memory and accepts what it is asked.
pub record Accepts {K : Type 0} (kernel : Kernel K) : Type 0 where
  pub allocs : (k : K) → kernel.can_alloc k ≡ true
  pub adds : Adds kernel
  pub commits : (k : K) (pset : List Request) (flags : ℕ) → (kernel.commit k pset flags).0 ≡ pos 0

-- A compositor with its connector and CRTC, for which no mode is waiting.
pub record IsSteady {K : Type 0} (crtc : Crtc) (s : Compositor K) : Type 0 where
  pub has_connector : (conn : Connector) × (s.connector ≡ some conn)
  pub has_crtc : s.crtc ≡ some crtc
  pub no_mode : s.mode.needs_modeset ≡ false

-- What a request for a frame asks besides its planes: an out-fence.
abbrev pub fence_asked : Crtc → List Request
fence_asked crtc = when (not (crtc.out_fence_ptr_property == 0)) (record {
  object = crtc.id;
  property = crtc.out_fence_ptr_property;
  value = out_fence_of crtc.pipe;
})

module _ {K : Type 0} (kernel : Kernel K) (accepts : Accepts kernel) (crtc : Crtc) where
  request_head-asks :
      (k : K) (mode : ModeState) (conn : Connector)
      → mode.needs_modeset ≡ false
      → (ret : ℤ) × (request_head kernel k mode crtc conn none none ≡ ok (ret, fence_asked crtc))
  unfolding request_head writeback_part out_fence_part modeset_part
  request_head-asks k mode conn m = elim (Bool-cases (crtc.out_fence_ptr_property == 0)) [
    | inl e ↦ (pos 0, rw (e, out_fence_part) (rw (m, modeset_part) refl))
    | inr e ↦
        let asked : Request = record {
          object = crtc.id;
          property = crtc.out_fence_ptr_property;
          value = out_fence_of crtc.pipe;
        } in
        (
          kernel.add_result k [] asked,
          rw (e, out_fence_part)
              (rw (accepts.adds k [] asked, out_fence_part, add_property)
                (rw (accepts.adds k [] asked) (rw (m, modeset_part) refl))),
        )
  ]

  -- Whatever was asked before, the loop over the planes of a composition asks for this.
  abbrev pub Asks : Composition → List Request → Type 0
  Asks c rs =
      (k : K) (ret : ℤ) (pset : List Request)
      → commit_planes kernel k c.layers c.composition_planes ret pset ≡ some (pos 0, pset ++ rs)

  -- The compositor behind a commit of what is asked.
  abbrev pub committed : Bool → List Request → Compositor K → Compositor K
  committed test rs s = record s {
    kernel_state =
        (kernel.commit s.kernel_state (fence_asked crtc ++ rs) (commit_flags kernel test)).1;
  }

  abbrev pub with_fence : Composition → Compositor K → Composition
  with_fence c s =
      if crtc.out_fence_ptr_property == 0
      then c
      else record c { out_fence = kernel.out_fence s.kernel_state crtc.pipe }

  after_commit-steady :
      (c : Composition) (test : Bool) (conn : Connector) (s : Compositor K)
      → s.mode.needs_modeset ≡ false
      → after_commit kernel c test crtc conn (pos 0) s ≡ (pos 0, s, with_fence c s)
  unfolding after_commit
  after_commit-steady c true conn s m = refl
  after_commit-steady c false conn s m = rw (m, after_commit) refl

  commit_request-steady :
      (c : Composition) (test : Bool) (conn : Connector) (rs : List Request) (s : Compositor K)
      → s.mode.needs_modeset ≡ false
      → commit_request kernel c test crtc conn (pos 0) (fence_asked crtc ++ rs) s
        ≡ (pos 0, committed test rs s, with_fence c (committed test rs s))
  unfolding commit_request
  commit_request-steady c test conn rs s m =
      rw
        (
          accepts.commits s.kernel_state (fence_asked crtc ++ rs) (commit_flags kernel test),
          commit_request,
        )
        (after_commit-steady c test conn (committed test rs s) m)

  commit_frame-on :
      (c : Composition) (test : Bool) (conn : Connector) (s : Compositor K)
      → s.connector ≡ some conn
      → s.crtc ≡ some crtc
      → commit_frame kernel c test none none s ≡ commit_on kernel c test none none conn crtc s
  unfolding commit_frame
  commit_frame-on c test conn s e e' = cc

  commit_on-steady :
      (c : Composition) (test : Bool) (conn : Connector) (rs : List Request) (s : Compositor K)
      → s.mode.needs_modeset ≡ false
      → Asks c rs
      → commit_on kernel c test none none conn crtc s
        ≡ some (pos 0, committed test rs s, with_fence c (committed test rs s))
  unfolding commit_on
  commit_on-steady c test conn rs s m asks =
      let (ret, head) = request_head-asks s.kernel_state s.mode conn m in
      rw (accepts.allocs s.kernel_state, commit_on)
        (rw (head, commit_on)
          (rw (asks s.kernel_state ret (fence_asked crtc), commit_on)
            (rw (commit_request-steady c test conn rs s m) refl)))

  -- The request of a frame is committed once, and the compositor is left as it was but for the
  -- kernel's state.
  pub commit_frame-steady :
      (c : Composition) (test : Bool) (rs : List Request) (s : Compositor K)
      → IsSteady crtc s
      → Asks c rs
      → commit_frame kernel c test none none s
        ≡ some (pos 0, committed test rs s, with_fence c (committed test rs s))
  commit_frame-steady c test rs s steady asks =
      let (conn, e) = steady.has_connector in
      commit_frame-on c test conn s e steady.has_crtc
      ∙ commit_on-steady c test conn rs s steady.no_mode asks

  with_fence-Asks :
      (c : Composition) (rs : List Request) (s : Compositor K)
      → Asks c rs
      → Asks (with_fence c s) rs
  with_fence-Asks c rs s asks =
      holds-if (λ x. Asks x rs) (crtc.out_fence_ptr_property == 0) asks asks

  committed-IsSteady :
      (test : Bool) (rs : List Request) (s : Compositor K)
      → IsSteady crtc s
      → IsSteady crtc (committed test rs s)
  committed-IsSteady test rs s steady = record {
    has_connector = steady.has_connector;
    has_crtc = steady.has_crtc;
    no_mode = steady.no_mode;
  }

  -- The compositor that shows a composition, which was tested in front.
  abbrev pub showing : Composition → List Request → Compositor K → Compositor K
  showing c rs s =
      let tested = committed true rs s in
      let done = committed false rs tested in
      record done {
        frames_composited = suc s.frames_composited;
        active_composition = some (with_fence (with_fence c tested) done);
        flatten_countdown = flatten_countdown_init;
        vsync_enabled = true;
      }

  apply_frame-steady :
      (c : Composition) (rs : List Request) (s : Compositor K)
      → IsSteady crtc s
      → Asks c rs
      → apply_frame kernel c (pos 0) false s
        ≡ some (record (committed false rs s) {
          frames_composited = suc s.frames_composited;
          active_composition = some (with_fence c (committed false rs s));
          flatten_countdown = flatten_countdown_init;
          vsync_enabled = true;
        })
  unfolding apply_frame
  apply_frame-steady c rs s steady asks =
      rw (commit_frame-steady c false rs s steady asks, apply_frame) refl

  apply_frame_composition-steady :
      (c : Composition) (rs : List Request) (s : Compositor K)
      → c.geometry_changed ≡ true
      → IsSteady crtc s
      → Asks c rs
      → apply_frame_composition kernel c s ≡ some (pos 0, showing c rs s)
  unfolding apply_frame_composition
  apply_frame_composition-steady c rs s g steady asks =
      let tested = committed true rs s in
      unless c.geometry_changed _ g (
        rw (commit_frame-steady c true rs s steady asks, apply_frame_composition)
          (rw
            (
              apply_frame-steady (with_fence c tested) rs tested
                  (committed-IsSteady true rs s steady) (with_fence-Asks c rs tested asks),
              apply_frame_composition,
            )
            refl))

  -- ApplyComposition tests a frame and commits it, and the compositor shows it.
  pub apply_composition-steady :
      (c : Composition) (rs : List Request) (s : Compositor K)
      → c.kind ≡ frame
      → c.geometry_changed ≡ true
      → IsSteady crtc s
      → Asks c rs
      → apply_composition kernel c s ≡ some (pos 0, showing c rs s)
  unfolding apply_composition dispatch
  apply_composition-steady c rs s frames g steady asks =
      ap (λ kind. dispatch kernel kind c s) frames
      ∙ apply_frame_composition-steady c rs s g steady asks
