-- ===== src/Planner.antt =====
-- platform.h and platform.cpp: which plane of the hardware shows which layer of a frame.
-- A pointer to a plane is the plane's record, and pointers are compared by the kernel's plane id.
pub mod Stages
pub mod Placed
use drm_hwcomposer.Base.{
  ℕ, Bool, true, false, Option, none, some, List, [], ◌∷◌, ◌++◌, ℤ, pos, enoent, enodev,
  if◌then◌else◌, ◌==ℤ◌, is_set, select, null,
}
use drm_hwcomposer.Resources.{Plane, Crtc, get_crtc_supported}

pub data CompositionKind : Type 0 where
  disable layer : CompositionKind

pub record CompositionPlane : Type 0 where
  pub kind : CompositionKind
  pub plane : Option Plane
  pub crtc : Option Crtc
  pub source_layers : List ℕ

-- What a planning stage works on: `composition`, `layers` (the map from the index of a layer to
-- whether its buffer is protected, in the order of the indices) and the planes left.
pub record Provision : Type 0 where
  pub composition : List CompositionPlane
  pub layers : List (ℕ × Bool)
  pub planes : List Plane

unfoldable pub pop_plane : List Plane → Option (Plane × List Plane)
pop_plane [] = none
pop_plane (p ∷ ps) = some (p, ps)

abbrev pub layer_plane : Crtc → Plane → ℕ → CompositionPlane
layer_plane crtc plane source_layer = record {
  kind = layer;
  plane = some plane;
  crtc = some crtc;
  source_layers = source_layer ∷ [];
}

unfoldable pub emplace :
    Crtc → ℕ → List CompositionPlane → List Plane → ℤ × List CompositionPlane × List Plane
unfolding pop_plane
emplace crtc source_layer composition planes = elim (pop_plane planes) [
  | none ↦ (enoent, composition, planes)
  | some (plane, rest) ↦ (pos 0, composition ++ layer_plane crtc plane source_layer ∷ [], rest)
]

-- The loop of PlanStageGreedy: it erases each layer that it has handled, and stops when the planes
-- have run out.
unfoldable pub greedy_loop : Crtc → List CompositionPlane → List (ℕ × Bool) → List Plane → Provision
unfolding emplace
greedy_loop crtc composition [] planes = record {
  composition = composition;
  layers = [];
  planes = planes;
}
greedy_loop crtc composition ((i, protected) ∷ rest) planes =
    let placed : ℤ × List CompositionPlane × List Plane = emplace crtc i composition planes in
    let more = greedy_loop crtc placed.1 rest placed.2 in
    if placed.0 ==ℤ enoent
    then record { composition = placed.1; layers = (i, protected) ∷ rest; planes = placed.2 }
    else more

-- The loop of PlanStageProtected: a protected layer is erased also when no plane was left for it.
unfoldable pub protected_loop :
    Crtc → List CompositionPlane → List (ℕ × Bool) → List Plane → Provision
unfolding emplace
protected_loop crtc composition [] planes = record {
  composition = composition;
  layers = [];
  planes = planes;
}
protected_loop crtc composition ((i, false) ∷ rest) planes =
    let more = protected_loop crtc composition rest planes in
    record more { layers = (i, false) ∷ more.layers }
protected_loop crtc composition ((i, true) ∷ rest) planes =
    let placed : ℤ × List CompositionPlane × List Plane = emplace crtc i composition planes in
    protected_loop crtc placed.1 rest placed.2

-- The subclasses of Planner::PlanStage.
pub data Stage : Type 0 where
  protected_stage greedy_stage : Stage

unfoldable pub run_stage : Stage → Crtc → Provision → ℤ × Provision
unfolding greedy_loop protected_loop
run_stage protected_stage crtc p = (pos 0, protected_loop crtc p.composition p.layers p.planes)
run_stage greedy_stage crtc p = (pos 0, greedy_loop crtc p.composition p.layers p.planes)

unfoldable pub get_usable_planes : Crtc → List Plane → List Plane → List Plane
unfolding get_crtc_supported
get_usable_planes crtc primary overlay =
    select (get_crtc_supported crtc) primary ++ select (get_crtc_supported crtc) overlay

unfoldable pub run_stages : List Stage → Crtc → Provision → ℤ × List CompositionPlane
unfolding run_stage
run_stages [] crtc p = (pos 0, p.composition)
run_stages (s ∷ stages) crtc p =
    let done : ℤ × Provision = run_stage s crtc p in
    let more = run_stages stages crtc done.1 in if is_set done.0 then (done.0, []) else more

unfoldable pub provision_planes :
    List Stage → List (ℕ × Bool) → Crtc → List Plane → List Plane → ℤ × List CompositionPlane
unfolding run_stages get_usable_planes
provision_planes stages layers crtc primary overlay =
    let planes = get_usable_planes crtc primary overlay in
    if null planes
    then (enodev, [])
    else run_stages stages crtc (record { composition = []; layers = layers; planes = planes })
