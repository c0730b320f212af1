-- ===== src/Compositor/Testing.antt =====
-- A test of a composition (TestComposition, and the test in front of ApplyFrame).
use drm_hwcomposer.Base.{
  ◌≡◌, refl, true, Option, none, some, List, ℤ, arith, Option-cases, inl, inr, bit_or, ◌⊎◌,
}
use drm_hwcomposer.Resources.{Crtc, Result, ok, err}
use drm_hwcomposer.Connector.{Connector}
use drm_hwcomposer.Layer.{Bo}
use drm_hwcomposer.Composition.{Composition}
use drm_hwcomposer.Kernel.{Kernel, Request, test_only_flag, allow_modeset_flag}
use drm_hwcomposer.Commit.{commit_planes}
use drm_hwcomposer.Compositor.State.{Compositor}
use drm_hwcomposer.Compositor.Frame.{
  commit_frame, commit_on, after_commit, commit_request, request_head,
}
use drm_hwcomposer.Compositor.Apply.{test_composition}

pub Result-cases {ℓ} :
    {A : Type ℓ} (r : Result A) → ((e : ℤ) × (r ≡ err e)) ⊎ ((a : A) × (r ≡ ok a))
Result-cases (ok a) = inr (a, refl)
Result-cases (err e) = inl (e, refl)

-- The kernel's documented behaviour under DRM_MODE_ATOMIC_TEST_ONLY: the request is checked, and
-- nothing is changed.
abbrev pub ChecksOnly : {K : Type 0} → Kernel K → Type 0
ChecksOnly {K} kernel =
    (k : K) (pset : List Request)
    → (kernel.commit k pset (bit_or allow_modeset_flag test_only_flag)).1 ≡ k

module _ {K : Type 0} (kernel : Kernel K) (dry : ChecksOnly kernel) where
  commit_request-test :
      (c : Composition) (crtc : Crtc) (conn : Connector) (ret : ℤ) (pset : List Request)
      (s : Compositor K)
      → (commit_request kernel c true crtc conn ret pset s).1 ≡ s
  unfolding commit_request after_commit
  commit_request-test c crtc conn ret pset s = ground (arith, dry s.kernel_state pset)

  commit_on-test :
      (c : Composition) (wc : Option Connector) (wb : Option Bo) (conn : Connector) (crtc : Crtc)
      (s s' : Compositor K) (r : ℤ) (c' : Composition)
      → commit_on kernel c true wc wb conn crtc s ≡ some (r, s', c')
      → s' ≡ s
  unfolding commit_on
  commit_on-test c wc wb conn crtc s s' r c' h =
      elim (Result-cases (request_head kernel s.kernel_state s.mode crtc conn wc wb)) [
        | inl (e, he) ↦ ground arith
        | inr ((ret, pset), he) ↦
            elim (Option-cases
              (commit_planes kernel s.kernel_state c.layers c.composition_planes ret pset)) [
                | inl hn ↦ ground arith
                | inr ((ret', pset'), hp) ↦
                    ground (arith, commit_request-test c crtc conn ret' pset' s)
              ]
      ]

  -- Where the kernel only checks a test-only commit, a test of a composition returns with the
  -- compositor exactly as it was, whatever the composition is and whatever the test finds.
  pub test_composition-pure :
      (c c' : Composition) (s s' : Compositor K) (r : ℤ)
      → test_composition kernel c s ≡ some (r, s', c')
      → s' ≡ s
  unfolding test_composition commit_frame
  test_composition-pure c c' s s' r h = elim (Option-cases s.connector) [
    | inl e ↦ ground arith
    | inr (conn, e) ↦ elim (Option-cases s.crtc) [
      | inl e' ↦ ground arith
      | inr (crtc, e') ↦ commit_on-test c none none conn crtc s s' r c' (ground arith)
    ]
  ]
