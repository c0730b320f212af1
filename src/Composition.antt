-- ===== src/Composition.antt =====
-- drmdisplaycomposition.h and drmdisplaycomposition.cpp: what one commit shall bring to a display.
pub mod Accounting
pub mod Exhaustive
pub mod Typing
pub mod Dump
pub mod Printed
pub mod Whole
use drm_hwcomposer.Base.{
  ℕ, ◌+◌, Bool, true, false, Option, none, some, List, [], ◌∷◌, ◌++◌, map, ℤ, pos, einval,
  if◌then◌else◌, ◌==◌, leb, is_set,
}
use drm_hwcomposer.Resources.{Plane, Crtc, plane_type_primary}
use drm_hwcomposer.Mode.{Mode, default_mode}
use drm_hwcomposer.Layer.{DrmLayer, protected_usage}
use drm_hwcomposer.Planner.{
  CompositionPlane, CompositionKind, disable, layer, Stage, provision_planes,
}

pub data CompositionType : Type 0 where
  empty frame dpms modeset : CompositionType

-- DRM_MODE_DPMS_ON and DRM_MODE_DPMS_OFF.
abbrev pub dpms_on : ℕ
dpms_on = 0

abbrev pub dpms_off : ℕ
dpms_off = 3

-- The planner is its stages; the importer and the device are those of the display.
pub record Composition : Type 0 where
  pub crtc : Option Crtc
  pub planner : List Stage
  pub frame_no : ℕ
  pub kind : CompositionType
  pub dpms_mode : ℕ
  pub display_mode : Mode
  pub out_fence : ℤ
  pub geometry_changed : Bool
  pub layers : List DrmLayer
  pub composition_planes : List CompositionPlane

abbrev pub new_composition : Composition
new_composition = record {
  crtc = none;
  planner = [];
  frame_no = 0;
  kind = empty;
  dpms_mode = dpms_on;
  display_mode = default_mode;
  out_fence = ℤ.negsuc 0;
  geometry_changed = false;
  layers = [];
  composition_planes = [];
}

unfoldable pub init : Option Crtc → List Stage → ℕ → Composition → ℤ × Composition
init crtc planner frame_no c =
    (pos 0, record c { crtc = crtc; planner = planner; frame_no = frame_no })

abbrev same_type : CompositionType → CompositionType → Bool
same_type empty empty = true
same_type frame frame = true
same_type dpms dpms = true
same_type modeset modeset = true
same_type _ _ = false

unfoldable pub validate_composition_type : Composition → CompositionType → Bool
validate_composition_type c des = if same_type c.kind empty then true else same_type c.kind des

unfoldable pub set_layers : List DrmLayer → Bool → Composition → ℤ × Composition
unfolding validate_composition_type
set_layers layers geometry_changed c =
    if validate_composition_type c frame
    then (
      pos 0,
      record c { geometry_changed = geometry_changed; layers = c.layers ++ layers; kind = frame },
    )
    else (einval, c)

unfoldable pub set_dpms_mode : ℕ → Composition → ℤ × Composition
unfolding validate_composition_type
set_dpms_mode dpms_mode c =
    if validate_composition_type c dpms
    then (pos 0, record c { dpms_mode = dpms_mode; kind = dpms })
    else (einval, c)

unfoldable pub set_display_mode : Mode → Composition → ℤ × Composition
unfolding validate_composition_type
set_display_mode display_mode c =
    if validate_composition_type c modeset
    then (pos 0, record c { display_mode = display_mode; dpms_mode = dpms_on; kind = modeset })
    else (einval, c)

abbrev pub disabled_plane : Option Crtc → Plane → CompositionPlane
disabled_plane crtc plane = record {
  kind = disable;
  plane = some plane;
  crtc = crtc;
  source_layers = [];
}

unfoldable pub add_plane_disable : Plane → Composition → Composition
add_plane_disable plane c = record c {
  composition_planes = c.composition_planes ++ disabled_plane c.crtc plane ∷ [];
}

unfoldable pub add_plane_composition : CompositionPlane → Composition → ℤ × Composition
add_plane_composition plane c =
    (pos 0, record c { composition_planes = c.composition_planes ++ plane ∷ [] })

-- The loop by which the callers of Plan disable the planes that are left in a pool, and empty it.
unfoldable pub disable_all : List Plane → Composition → Composition
unfolding add_plane_disable
disable_all [] c = c
disable_all (p ∷ ps) c = disable_all ps (add_plane_disable p c)

-- `std::sort` of the indices of the source layers.
insert_sorted : ℕ → List ℕ → List ℕ
insert_sorted x [] = x ∷ []
insert_sorted x (y ∷ ys) = let rest = insert_sorted x ys in if leb x y then x ∷ y ∷ ys else y ∷ rest

unfoldable pub sort : List ℕ → List ℕ
unfolding insert_sorted
sort [] = []
sort (x ∷ xs) = insert_sorted x (sort xs)

-- `container->erase(j)` at the first plane that is `plane`.
unfoldable pub erase_plane : Plane → List Plane → List Plane
erase_plane plane [] = []
erase_plane plane (p ∷ ps) =
    let rest = erase_plane plane ps in if p.id == plane.id then ps else p ∷ rest

-- The planes left in the pools, and the composition's planes so far.
pub record Pools : Type 0 where
  pub primary : List Plane
  pub overlay : List Plane

unfoldable pub take_plane : Plane → Pools → Pools
unfolding erase_plane
take_plane plane pools =
    if plane.kind == plane_type_primary
    then record pools { primary = erase_plane plane pools.primary }
    else record pools { overlay = erase_plane plane pools.overlay }

-- The loop at the end of Plan.
unfoldable pub remove_used : List CompositionPlane → Pools → List CompositionPlane × Pools
unfolding take_plane sort
remove_used [] pools = ([], pools)
remove_used (i ∷ rest) pools = elim i.plane [
  | none ↦ let done = remove_used rest pools in (i ∷ done.0, done.1)
  | some plane ↦
      let done = remove_used rest (take_plane plane pools) in
      (record i { source_layers = sort i.source_layers } ∷ done.0, done.1)
]

-- `to_composite`: the layers by their indices.
unfoldable pub index_layers : ℕ → List DrmLayer → List (ℕ × Bool)
unfolding protected_usage
index_layers i [] = []
index_layers i (l ∷ ls) = (i, protected_usage l) ∷ index_layers (i + 1) ls

-- The result of Plan, which takes the two pools by reference. The code reads the CRTC through a
-- pointer, and would fault on a null one.
pub data Planned : Type 0 where
  planned : ℤ → Composition → Pools → Planned
  null_crtc : Planned

unfoldable pub plan_frame : Crtc → Composition → Pools → Planned
unfolding index_layers remove_used
plan_frame crtc c pools =
    let found : ℤ × List CompositionPlane =
      provision_planes c.planner (index_layers 0 c.layers) crtc pools.primary pools.overlay in
    let used = remove_used found.1 pools in
    if is_set found.0
    then planned found.0 (record c { composition_planes = found.1 }) pools
    else planned (pos 0) (record c { composition_planes = used.0 }) used.1

unfoldable pub plan : Composition → Pools → Planned
unfolding plan_frame
plan c pools =
    if same_type c.kind frame
    then elim c.crtc [ none ↦ null_crtc | some crtc ↦ plan_frame crtc c pools ]
    else planned (pos 0) c pools
