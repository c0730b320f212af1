-- ===== src/Planner/Placed.antt =====
-- What the planner makes of a plane (platform.cpp): each plane of a plan shows one layer of the frame.
use drm_hwcomposer.Base.{
  ℕ, ◌<◌, ◌≡◌, refl, Bool, false, List, [], ◌∷◌, pos, select, null, All, All-append, All-select,
}
use drm_hwcomposer.Resources.{Plane, Crtc, get_crtc_supported}
use drm_hwcomposer.Planner.{
  CompositionPlane, layer_plane, Provision, Stage, protected_stage, greedy_stage, run_stage,
  run_stages, get_usable_planes, provision_planes,
}
use drm_hwcomposer.Planner.Stages.{
  pair_up, left_over, is_protected, is_plain, greedy_loop_lem, protected_loop_lem,
}

All-left_over :
    {A B : Type 0} (P : A → Type 0) (xs : List A) (ys : List B) → All P xs → All P (left_over xs ys)
All-left_over P [] ys h = tt
All-left_over P (x ∷ xs) [] h = h
All-left_over P (x ∷ xs) (y ∷ ys) h = All-left_over P xs ys h.1

module _ (P : Plane → Type 0) (n : ℕ) (crtc : Crtc) where
  -- A plane with a property shows the layer at an index below the bound.
  abbrev pub Placed : CompositionPlane → Type 0
  Placed c = (p : Plane) × (i : ℕ) × P p × (i < n) × (c ≡ layer_plane crtc p i)

  abbrev pub IsIndexed : List (ℕ × Bool) → Type 0
  IsIndexed layers = All (λ l. l.0 < n) layers

  pair_up-Placed :
      (layers : List (ℕ × Bool)) (planes : List Plane)
      → IsIndexed layers
      → All P planes
      → All Placed (pair_up crtc layers planes)
  pair_up-Placed [] planes b h = tt
  pair_up-Placed (l ∷ ls) [] b h = tt
  pair_up-Placed (l ∷ ls) (p ∷ ps) b h = ((p, l.0, h.0, b.0, refl), pair_up-Placed ls ps b.1 h.1)

  -- What a stage works on.
  record IsReady (p : Provision) : Type 0 where
    placed : All Placed p.composition
    indexed : IsIndexed p.layers
    usable : All P p.planes

  run_stage-IsReady : (s : Stage) (p : Provision) → IsReady p → IsReady (run_stage s crtc p).1
  unfolding run_stage
  run_stage-IsReady protected_stage p r =
      let chosen = select is_protected p.layers in
      let chosen_indexed = All-select (λ l. l.0 < n) is_protected p.layers r.indexed in
      rw (protected_loop_lem crtc p.composition p.layers p.planes) (record {
        placed =
            All-append Placed p.composition _ r.placed
              (pair_up-Placed chosen p.planes chosen_indexed r.usable);
        indexed = All-select (λ l. l.0 < n) is_plain p.layers r.indexed;
        usable = All-left_over P p.planes chosen r.usable;
      })
  run_stage-IsReady greedy_stage p r =
      rw (greedy_loop_lem crtc p.composition p.layers p.planes) (record {
        placed =
            All-append Placed p.composition _ r.placed
              (pair_up-Placed p.layers p.planes r.indexed r.usable);
        indexed = All-left_over (λ l. l.0 < n) p.layers p.planes r.indexed;
        usable = All-left_over P p.planes p.layers r.usable;
      })

  -- No stage fails.
  run_stages-Placed :
      (stages : List Stage) (p : Provision)
      → IsReady p
      → ((run_stages stages crtc p).0 ≡ pos 0) × All Placed (run_stages stages crtc p).1
  unfolding run_stages run_stage
  run_stages-Placed [] p r = (refl, r.placed)
  run_stages-Placed (protected_stage ∷ stages) p r =
      run_stages-Placed stages (run_stage protected_stage crtc p).1
        (run_stage-IsReady protected_stage p r)
  run_stages-Placed (greedy_stage ∷ stages) p r =
      run_stages-Placed stages (run_stage greedy_stage crtc p).1
        (run_stage-IsReady greedy_stage p r)

  -- When the CRTC supports a plane of the pools, a plan is made.
  pub provision_planes-Placed :
      (stages : List Stage) (layers : List (ℕ × Bool)) (primary overlay : List Plane)
      → null (get_usable_planes crtc primary overlay) ≡ false
      → IsIndexed layers
      → All P primary
      → All P overlay
      → let found = provision_planes stages layers crtc primary overlay in
        (found.0 ≡ pos 0) × All Placed found.1
  unfolding provision_planes get_usable_planes
  provision_planes-Placed stages layers primary overlay some_plane b hp ho =
      let supported = get_crtc_supported crtc in
      let usable = get_usable_planes crtc primary overlay in
      rw (some_plane, provision_planes)
        (run_stages-Placed stages (record { composition = []; layers = layers; planes = usable })
          (record {
            placed = tt;
            indexed = b;
            usable =
                All-append P (select supported primary) (select supported overlay)
                  (All-select P supported primary hp) (All-select P supported overlay ho);
          }))
