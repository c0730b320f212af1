-- ===== src/Commit/Duty.antt =====
-- What the planes of a composition shall do, and the properties that the code sets for it: the loop
-- over the planes in CommitFrame (drmdisplaycompositor.cpp) from outside.
use drm_hwcomposer.Base.{
  ℕ, ◌^◌, ◌≡◌, refl, map, ◌-ℤ◌, Bool, true, false, not, ◌||◌, some, List, [], ◌∷◌, ◌++◌, ℤ, pos,
  if◌then◌else◌, ◌==◌, leb, is_neg, get_elem?,
}
use drm_hwcomposer.Resources.{Plane, Crtc}
use drm_hwcomposer.Layer.{DrmLayer, Bo, Rect}
use drm_hwcomposer.Planner.{CompositionPlane, disable, layer}
use drm_hwcomposer.Kernel.{Request, number, to_u64}
use drm_hwcomposer.Commit.{request, crop_fixed, rotation_of, plane_alpha, layer_requests}

-- What a plane shall do: nothing, or show a layer with its framebuffer on a CRTC.
pub data Duty : Type 0 where
  off : Plane → Duty
  on : Plane → Crtc → DrmLayer → Bo → Duty

-- A layer that a plane can show: its framebuffer is valid, and the plane has the properties that
-- the layer's fence, transform and alpha need.
pub record CanShow (p : Plane) (l : DrmLayer) (bo : Bo) : Type 0 where
  pub imported : l.buffer ≡ some bo
  pub valid_fb : leb (2 ^ 31) bo.fb_id ≡ false
  pub fence : (is_neg l.acquire_fence || not (p.in_fence_fd_property == 0)) ≡ true
  pub rotation : (rotation_of l.transform == 1 || not (p.rotation_property == 0)) ≡ true
  pub alpha : (plane_alpha l == 0xffff || not (p.alpha_property == 0)) ≡ true

-- A plane of a composition that is set up for a duty.
abbrev pub Fits : List DrmLayer → Duty → CompositionPlane → Type 0
Fits layers (off p) c = (c.plane ≡ some p) × (c.kind ≡ disable)
Fits layers (on p crtc l bo) c =
    (i : ℕ) × (c.plane ≡ some p)
    × (c.kind ≡ layer)
    × (c.crtc ≡ some crtc)
    × (c.source_layers ≡ i ∷ [])
    × (get_elem? layers i ≡ some l)
    × CanShow p l bo

abbrev pub AllFit : List DrmLayer → List Duty → List CompositionPlane → Type 0
AllFit layers [] [] = Unit
AllFit layers [] (c ∷ cs) = ⊥
AllFit layers (d ∷ ds) [] = ⊥
AllFit layers (d ∷ ds) (c ∷ cs) = Fits layers d c × AllFit layers ds cs

abbrev pub when : Bool → Request → List Request
when b r = if b then r ∷ [] else []

abbrev width_of : Rect → ℤ
width_of r = r.right -ℤ r.left

abbrev height_of : Rect → ℤ
height_of r = r.bottom -ℤ r.top

abbrev plane_sets : Plane → ℕ × ℤ → Request
plane_sets p s = record { object = p.id; property = s.0; value = number (to_u64 s.1) }

-- Where a plane takes its pixels from, and where on the CRTC it puts them: the source in 16.16
-- fixed point.
unfoldable pub geometry : Plane → ℕ → ℕ → DrmLayer → List Request
geometry p crtc_id fb_id l =
    let screen = l.display_frame in
    let source = l.source_crop in
    map (plane_sets p) (
      (p.crtc_property, pos crtc_id)
      ∷ (p.fb_property, pos fb_id)
      ∷ (p.crtc_x_property, screen.left)
      ∷ (p.crtc_y_property, screen.top)
      ∷ (p.crtc_w_property, width_of screen)
      ∷ (p.crtc_h_property, height_of screen)
      ∷ (p.src_x_property, crop_fixed source.left)
      ∷ (p.src_y_property, crop_fixed source.top)
      ∷ (p.src_w_property, crop_fixed (width_of source))
      ∷ (p.src_h_property, crop_fixed (height_of source))
      ∷ [])

pub layer_requests-geometry :
    (p : Plane) (crtc_id fb_id : ℕ) (l : DrmLayer)
    → layer_requests p crtc_id fb_id l ≡ geometry p crtc_id fb_id l
unfolding layer_requests geometry
layer_requests-geometry p crtc_id fb_id l = refl

-- The properties that a duty asks for.
unfoldable pub asks : Duty → List Request
asks (off p) = request p p.crtc_property (pos 0) ∷ request p p.fb_property (pos 0) ∷ []
asks (on p crtc l bo) =
    when (not (is_neg l.acquire_fence)) (request p p.in_fence_fd_property l.acquire_fence)
    ++ geometry p crtc.id bo.fb_id l
    ++ when (not (p.rotation_property == 0))
        (request p p.rotation_property (pos (rotation_of l.transform)))
    ++ when (not (p.alpha_property == 0)) (request p p.alpha_property (pos (plane_alpha l)))

abbrev pub all_ask : List Duty → List Request
all_ask [] = []
all_ask (d ∷ ds) = asks d ++ all_ask ds
