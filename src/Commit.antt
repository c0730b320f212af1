-- ===== src/Commit.antt =====
-- The loop over the planes in DrmDisplayCompositor::CommitFrame (drmdisplaycompositor.cpp): what
-- each plane of a composition adds to the atomic request.
pub mod Duty
pub mod Complete
pub mod Fits
pub mod Planned
use drm_hwcomposer.Base.{
  ℕ, ◌^◌, bit_or, not, ◌&&◌, Option, none, some, List, [], ◌∷◌, ℤ, pos, ◌-ℤ◌, ◌*ℤ◌, quot, einval,
  if◌then◌else◌, ◌==◌, leb, has_bit, is_neg, get_elem?,
}
use drm_hwcomposer.Resources.{Plane, Crtc}
use drm_hwcomposer.Layer.{DrmLayer, pre_mult}
use drm_hwcomposer.Planner.{CompositionPlane, disable, layer}
use drm_hwcomposer.Kernel.{Kernel, Request, number, to_u64, add_property, add_both, add_each}

-- How a round of the loop ends: `continue` or its end, or `break`, with `ret` and the request; or
-- a read through a null pointer.
pub data Flow : Type 0 where
  fault : Flow
  next : ℤ → List Request → Flow
  stop : ℤ → List Request → Flow

-- DRM_MODE_ROTATE_0 is bit 0, _90 bit 1, _180 bit 2, _270 bit 3, REFLECT_X bit 4, REFLECT_Y bit 5.
unfoldable pub rotation_of : ℕ → ℕ
rotation_of transform =
    let x = if has_bit transform 0 then 16 else 0 in
    let y = if has_bit transform 1 then bit_or x 32 else x in
    if has_bit transform 2
    then bit_or y 2
    else if has_bit transform 3
    then bit_or y 4
    else if has_bit transform 4
    then bit_or y 8
    else bit_or y 1

unfoldable pub plane_alpha : DrmLayer → ℕ
plane_alpha l = elim l.blending [ pre_mult ↦ l.alpha | _ ↦ 0xffff ]

-- `(int)(crop) << 16`.
abbrev pub crop_fixed : ℤ → ℤ
crop_fixed a = quot a (2 ^ 16) *ℤ pos (2 ^ 16)

abbrev pub request : Plane → ℕ → ℤ → Request
request plane property v = record {
  object = plane.id;
  property = property;
  value = number (to_u64 v);
}

-- The ten properties by which a plane shows a framebuffer.
unfoldable pub layer_requests : Plane → ℕ → ℕ → DrmLayer → List Request
layer_requests plane crtc_id fb_id l =
    let frame = l.display_frame in
    let crop = l.source_crop in
    request plane plane.crtc_property (pos crtc_id)
    ∷ request plane plane.fb_property (pos fb_id)
    ∷ request plane plane.crtc_x_property frame.left
    ∷ request plane plane.crtc_y_property frame.top
    ∷ request plane plane.crtc_w_property (frame.right -ℤ frame.left)
    ∷ request plane plane.crtc_h_property (frame.bottom -ℤ frame.top)
    ∷ request plane plane.src_x_property (crop_fixed crop.left)
    ∷ request plane plane.src_y_property (crop_fixed crop.top)
    ∷ request plane plane.src_w_property (crop_fixed (crop.right -ℤ crop.left))
    ∷ request plane plane.src_h_property (crop_fixed (crop.bottom -ℤ crop.top))
    ∷ []

module _ {K : Type 0} (kernel : Kernel K) (k : K) where
  -- The plane is disabled when there is no framebuffer for it.
  unfoldable pub commit_disable : Plane → List Request → Flow
  unfolding add_both
  commit_disable plane pset =
      let added =
        add_both kernel k pset (request plane plane.crtc_property (pos 0))
          (request plane plane.fb_property (pos 0)) in
      if added.0 then stop (pos 1) added.1 else next (pos 0) added.1

  -- `if (prop.id()) { ret = add(…) < 0; if (ret) break; }`, behind a step with ret = 0.
  unfoldable pub optional_property : Plane → ℕ → ℕ → List Request → Flow
  unfolding add_property
  optional_property plane property v pset =
      let added = add_property kernel k pset (request plane property (pos v)) in
      if property == 0
      then next (pos 0) pset
      else if is_neg added.0
      then stop (pos 1) added.1
      else next (pos 0) added.1

  abbrev then_flow : Flow → (List Request → Flow) → Flow
  then_flow fault f = fault
  then_flow (next ret pset) f = f pset
  then_flow (stop ret pset) f = stop ret pset

  -- The rest of a round, for a layer with its framebuffer.
  commit_layer : Plane → Option Crtc → DrmLayer → ℕ → List Request → Flow
  commit_layer plane crtc l fb_id pset =
      let rotation = rotation_of l.transform in
      let alpha = plane_alpha l in
      let show : Flow = elim crtc [
        | none ↦ fault
        | some c ↦
            let added = add_each kernel k pset (layer_requests plane c.id fb_id l) in
            if added.0
            then stop (pos 1) added.1
            else then_flow (optional_property plane plane.rotation_property rotation added.1)
                (optional_property plane plane.alpha_property alpha)
      ] in
      if not (rotation == 1) && plane.rotation_property == 0
      then stop einval pset
      else if not (alpha == 0xffff) && plane.alpha_property == 0
      then stop einval pset
      else show

  -- `int fb_id = layer.buffer->fb_id`: the id of a framebuffer is a uint32_t, and one that is
  -- negative as an int disables the plane.
  show_or_disable : Plane → Option Crtc → DrmLayer → ℕ → List Request → Flow
  unfolding commit_disable commit_layer
  show_or_disable plane crtc l fb_id pset =
      if leb (2 ^ 31) fb_id then commit_disable plane pset else commit_layer plane crtc l fb_id pset

  -- The acquire fence of the layer, which the kernel waits for. A break keeps `ret`.
  commit_fence : Plane → Option Crtc → DrmLayer → ℕ → ℤ → List Request → Flow
  unfolding add_property show_or_disable
  commit_fence plane crtc l fb_id ret pset =
      let added =
        add_property kernel k pset (request plane plane.in_fence_fd_property l.acquire_fence) in
      if is_neg l.acquire_fence
      then show_or_disable plane crtc l fb_id pset
      else if plane.in_fence_fd_property == 0
      then stop ret pset
      else if is_neg added.0
      then stop added.0 added.1
      else show_or_disable plane crtc l fb_id added.1

  commit_buffer : Plane → Option Crtc → ℤ → List Request → DrmLayer → Flow
  unfolding commit_fence
  commit_buffer plane crtc ret pset l = elim l.buffer [
    | none ↦ stop ret pset
    | some bo ↦ commit_fence plane crtc l bo.fb_id ret pset
  ]

  -- The source layers of a plane that is not disabled: more than one is passed over, an index out
  -- of range ends the loop.
  commit_source : List DrmLayer → Plane → Option Crtc → ℤ → List Request → List ℕ → Flow
  unfolding commit_buffer
  commit_source layers plane crtc ret pset [] = stop ret pset
  commit_source layers plane crtc ret pset (i ∷ []) = elim (get_elem? layers i) [
    | none ↦ stop ret pset
    | some l ↦ commit_buffer plane crtc ret pset l
  ]
  commit_source layers plane crtc ret pset (i ∷ j ∷ rest) = next ret pset

  -- One round.
  unfoldable pub commit_plane : List DrmLayer → CompositionPlane → ℤ → List Request → Flow
  unfolding commit_disable commit_source
  commit_plane layers c ret pset = elim c.plane [
    | none ↦ fault
    | some plane ↦ elim c.kind [
      | disable ↦ commit_disable plane pset
      | layer ↦ commit_source layers plane c.crtc ret pset c.source_layers
    ]
  ]

  -- The loop; `none` is a read through a null pointer.
  unfoldable pub commit_planes :
      List DrmLayer → List CompositionPlane → ℤ → List Request → Option (ℤ × List Request)
  unfolding commit_plane
  commit_planes layers [] ret pset = some (ret, pset)
  commit_planes layers (c ∷ cs) ret pset = elim (commit_plane layers c ret pset) [
    | fault ↦ none
    | next ret' pset' ↦ commit_planes layers cs ret' pset'
    | stop ret' pset' ↦ some (ret', pset')
  ]
