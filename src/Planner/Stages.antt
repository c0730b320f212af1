-- ===== src/Planner/Stages.antt =====
-- What the planning stages of platform.cpp promise: which layer gets which plane, and that no plane
-- is given twice.
use drm_hwcomposer.Base.{
  ℕ, ◌+◌, ◌≤◌, ◌≡◌, refl, Bool, true, false, not, none, some, List, [], ◌∷◌, ◌++◌, pos, enodev,
  if◌then◌else◌, select, count_if, null, arith, count_if-append,
}
use mathlib.Core.List.{append-nil, append_assoc}
use drm_hwcomposer.Resources.{Plane, Crtc, get_crtc_supported}
use drm_hwcomposer.Planner.{
  CompositionPlane, layer_plane, Provision, Stage, protected_stage, greedy_stage, greedy_loop,
  protected_loop, run_stage, run_stages, get_usable_planes, provision_planes,
}

-- The layers in order, each on the next plane, as far as both go.
abbrev pub pair_up : Crtc → List (ℕ × Bool) → List Plane → List CompositionPlane
pair_up crtc [] planes = []
pair_up crtc (l ∷ ls) [] = []
pair_up crtc (l ∷ ls) (p ∷ ps) = layer_plane crtc p l.0 ∷ pair_up crtc ls ps

-- What is left of one list when the elements of another have been matched with its own.
abbrev pub left_over {ℓ κ} : {A : Type ℓ} {B : Type κ} → List A → List B → List A
left_over [] ys = []
left_over (x ∷ xs) [] = x ∷ xs
left_over (x ∷ xs) (y ∷ ys) = left_over xs ys

pair_up-nil : (crtc : Crtc) (layers : List (ℕ × Bool)) → pair_up crtc layers [] ≡ []
pair_up-nil crtc [] = refl
pair_up-nil crtc (l ∷ ls) = refl

-- The greedy stage puts the layers in order on the planes in order, until either runs out, behind
-- what the composition already held; it keeps the layers and the planes that found no partner.
pub greedy_loop_lem :
    (crtc : Crtc) (composition : List CompositionPlane) (layers : List (ℕ × Bool))
    (planes : List Plane)
    → greedy_loop crtc composition layers planes ≡ record {
      composition = composition ++ pair_up crtc layers planes;
      layers = left_over layers planes;
      planes = left_over planes layers;
    }
unfolding greedy_loop
greedy_loop_lem crtc composition [] [] = rw append-nil
greedy_loop_lem crtc composition [] (p ∷ ps) = rw append-nil
greedy_loop_lem crtc composition (l ∷ ls) [] = rw append-nil
greedy_loop_lem crtc composition (l ∷ ls) (p ∷ ps) =
    rw (greedy_loop_lem crtc (composition ++ layer_plane crtc p l.0 ∷ []) ls ps) (simp append_assoc)

abbrev pub is_protected : ℕ × Bool → Bool
is_protected l = l.1

abbrev pub is_plain : ℕ × Bool → Bool
is_plain l = not l.1

-- The protected stage puts the protected layers in order on the planes in order, until the planes
-- run out; the layers that it passes on are the unprotected ones, so that a protected layer for
-- which no plane was left is dropped.
pub protected_loop_lem :
    (crtc : Crtc) (composition : List CompositionPlane) (layers : List (ℕ × Bool))
    (planes : List Plane)
    → protected_loop crtc composition layers planes ≡ record {
      composition = composition ++ pair_up crtc (select is_protected layers) planes;
      layers = select is_plain layers;
      planes = left_over planes (select is_protected layers);
    }
unfolding protected_loop
protected_loop_lem crtc composition [] [] = rw append-nil
protected_loop_lem crtc composition [] (p ∷ ps) = rw append-nil
protected_loop_lem crtc composition ((i, false) ∷ ls) planes =
    rw (protected_loop_lem crtc composition ls planes)
protected_loop_lem crtc composition ((i, true) ∷ ls) [] =
    rw (protected_loop_lem crtc composition ls []) (rw (pair_up-nil crtc (select is_protected ls)))
protected_loop_lem crtc composition ((i, true) ∷ ls) (p ∷ ps) =
    rw (protected_loop_lem crtc (composition ++ layer_plane crtc p i ∷ []) ls ps)
      (simp append_assoc)

-- How many planes of a list pass a test, and how many of a composition's planes do.
abbrev pub holds : (Plane → Bool) → List Plane → ℕ
holds q = count_if q

abbrev pub shows_plane : (Plane → Bool) → CompositionPlane → Bool
shows_plane q c = elim c.plane [ none ↦ false | some p ↦ q p ]

abbrev pub shows : (Plane → Bool) → List CompositionPlane → ℕ
shows q = count_if (shows_plane q)

module _ (q : Plane → Bool) (crtc : Crtc) where
  shows-pair_up :
      (layers : List (ℕ × Bool)) (planes : List Plane)
      → shows q (pair_up crtc layers planes) + holds q (left_over planes layers) ≡ holds q planes
  shows-pair_up [] [] = omega arith
  shows-pair_up [] (p ∷ ps) = omega arith
  shows-pair_up (l ∷ ls) [] = omega arith
  shows-pair_up (l ∷ ls) (p ∷ ps) = ground (arith, shows-pair_up ls ps)

  run_stage-shows :
      (s : Stage) (p : Provision)
      → shows q (run_stage s crtc p).1.composition + holds q (run_stage s crtc p).1.planes
        ≡ shows q p.composition + holds q p.planes
  unfolding run_stage
  run_stage-shows protected_stage p = rw (protected_loop_lem crtc p.composition p.layers p.planes) (
      omega (
        arith,
        count_if-append {0} (shows_plane q) p.composition
            (pair_up crtc (select is_protected p.layers) p.planes),
        shows-pair_up (select is_protected p.layers) p.planes,
      ))
  run_stage-shows greedy_stage p = rw (greedy_loop_lem crtc p.composition p.layers p.planes) (
      omega (
        arith,
        count_if-append {0} (shows_plane q) p.composition (pair_up crtc p.layers p.planes),
        shows-pair_up p.layers p.planes,
      ))

  run_stages-shows :
      (stages : List Stage) (p : Provision)
      → shows q (run_stages stages crtc p).1 ≤ shows q p.composition + holds q p.planes
  unfolding run_stages
  run_stages-shows [] p = omega arith
  run_stages-shows (s ∷ stages) p =
      ground (arith, run_stages-shows stages (run_stage s crtc p).1, run_stage-shows s p)

holds-select : (q f : Plane → Bool) (ps : List Plane) → holds q (select f ps) ≤ holds q ps
holds-select q f [] = omega arith
holds-select q f (p ∷ ps) = ground (arith, holds-select q f ps)

-- However the planner's stages are chosen, the plan uses no plane more often than the two pools
-- hold it; this is counted for the planes of any given property, such as a given id.
pub provision_planes-shows :
    (q : Plane → Bool) (stages : List Stage) (layers : List (ℕ × Bool)) (crtc : Crtc)
    (primary overlay : List Plane)
    → shows q (provision_planes stages layers crtc primary overlay).1
      ≤ holds q primary + holds q overlay
unfolding provision_planes
provision_planes-shows q stages layers crtc primary overlay =
    let usable = get_usable_planes crtc primary overlay in
    ground (
      arith,
      run_stages-shows q crtc stages
          (record { composition = []; layers = layers; planes = usable }),
      count_if-append {0} q (select (get_crtc_supported crtc) primary)
          (select (get_crtc_supported crtc) overlay),
      holds-select q (get_crtc_supported crtc) primary,
      holds-select q (get_crtc_supported crtc) overlay,
    )

-- With the greedy stage alone, which every platform of the repository installs, a plan fails with
-- -ENODEV if the CRTC supports no plane of the pools, and otherwise it pairs the layers in order
-- with the planes that the CRTC supports, the primary ones first.
pub provision_planes-greedy :
    (layers : List (ℕ × Bool)) (crtc : Crtc) (primary overlay : List Plane)
    → provision_planes (greedy_stage ∷ []) layers crtc primary overlay ≡ (
        if null (get_usable_planes crtc primary overlay)
        then (enodev, [])
        else (pos 0, pair_up crtc layers (get_usable_planes crtc primary overlay)))
unfolding provision_planes
provision_planes-greedy layers crtc primary overlay =
    rw (greedy_loop_lem crtc [] layers (get_usable_planes crtc primary overlay))
