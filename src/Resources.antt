-- ===== src/Resources.antt =====
-- The modesetting objects of a device: drmplane.h, drmplane.cpp, drmcrtc.h and drmcrtc.cpp.
-- An object is created from what libdrm reports of it, and its Init looks its properties up.
use Prim.Native.String.{String}
use drm_hwcomposer.Base.{ℕ, Bool, ℤ, neg, einval, if◌then◌else◌, ◌==◌, ◌==ℤ◌, ◌||◌, has_bit, is_set}
use drm_hwcomposer.Property.{ObjectProperties, Property, no_property, get_property, value}

-- A step of an Init: its result, or the error with which Init returns.
pub data Result {ℓ} (A : Type ℓ) : Type ℓ where
  ok : A → Result A
  err : ℤ → Result A

infixl 5 ◌>>=◌
abbrev pub ◌>>=◌ {ℓ κ} : {A : Type ℓ} {B : Type κ} → Result A → (A → Result B) → Result B
ok a >>= f = f a
err e >>= f = err e

-- `ret = Get…Property(…, name, &p); if (ret) return ret;`
unfoldable pub required : ObjectProperties → String → Result Property
required props name =
    let got : ℤ × Property = get_property props name no_property in
    if is_set got.0 then err got.0 else ok got.1

-- The properties that an Init looks up and only logs when they are missing.
unfoldable pub optional : ObjectProperties → String → Property
optional props name = (get_property props name no_property).1

-- A plane: the fields that planning and committing read. Of each property it keeps the id, which
-- is 0 if the plane lacks the property.
pub record Plane : Type 0 where
  pub id : ℕ
  pub possible_crtc_mask : ℕ
  pub kind : ℕ
  pub crtc_property : ℕ
  pub fb_property : ℕ
  pub crtc_x_property : ℕ
  pub crtc_y_property : ℕ
  pub crtc_w_property : ℕ
  pub crtc_h_property : ℕ
  pub src_x_property : ℕ
  pub src_y_property : ℕ
  pub src_w_property : ℕ
  pub src_h_property : ℕ
  pub rotation_property : ℕ
  pub alpha_property : ℕ
  pub in_fence_fd_property : ℕ

-- DRM_PLANE_TYPE_OVERLAY, _PRIMARY and _CURSOR of the kernel's interface.
abbrev pub plane_type_overlay : ℕ
plane_type_overlay = 0

abbrev pub plane_type_primary : ℕ
plane_type_primary = 1

abbrev pub plane_type_cursor : ℕ
plane_type_cursor = 2

plane_kind : Property → Result ℕ
plane_kind p =
    let got : ℤ × ℕ = value p in
    if is_set got.0
    then err got.0
    else if got.1 == plane_type_overlay || got.1 == plane_type_primary || got.1 == plane_type_cursor
    then ok got.1
    else err einval

-- The constructor and DrmPlane::Init, for a plane with the given id, CRTC mask and properties.
unfoldable pub plane_init : ℕ → ℕ → ObjectProperties → Result Plane
unfolding required optional plane_kind
plane_init id mask props = do
  kind_property ← required props "type"
  kind ← plane_kind kind_property
  crtc ← required props "CRTC_ID"
  fb ← required props "FB_ID"
  crtc_x ← required props "CRTC_X"
  crtc_y ← required props "CRTC_Y"
  crtc_w ← required props "CRTC_W"
  crtc_h ← required props "CRTC_H"
  src_x ← required props "SRC_X"
  src_y ← required props "SRC_Y"
  src_w ← required props "SRC_W"
  src_h ← required props "SRC_H"
  ok (record {
    id = id;
    possible_crtc_mask = mask;
    kind = kind;
    crtc_property = crtc.id;
    fb_property = fb.id;
    crtc_x_property = crtc_x.id;
    crtc_y_property = crtc_y.id;
    crtc_w_property = crtc_w.id;
    crtc_h_property = crtc_h.id;
    src_x_property = src_x.id;
    src_y_property = src_y.id;
    src_w_property = src_w.id;
    src_h_property = src_h.id;
    rotation_property = (optional props "rotation").id;
    alpha_property = (optional props "alpha").id;
    in_fence_fd_property = (optional props "IN_FENCE_FD").id;
  })

pub record Crtc : Type 0 where
  pub id : ℕ
  pub pipe : ℕ
  pub display : ℤ
  pub active_property : ℕ
  pub mode_property : ℕ
  pub out_fence_ptr_property : ℕ

-- The constructor and DrmCrtc::Init.
unfoldable pub crtc_init : ℕ → ℕ → ObjectProperties → Result Crtc
unfolding required
crtc_init id pipe props = do
  active ← required props "ACTIVE"
  mode ← required props "MODE_ID"
  out_fence ← required props "OUT_FENCE_PTR"
  ok (record {
    id = id;
    pipe = pipe;
    display = neg 1;
    active_property = active.id;
    mode_property = mode.id;
    out_fence_ptr_property = out_fence.id;
  })

-- DrmCrtc::can_bind, and DrmEncoder::can_bind: not yet bound, or bound to this display.
unfoldable pub can_bind : ℤ → ℤ → Bool
can_bind bound display = bound ==ℤ neg 1 || bound ==ℤ display

unfoldable pub get_crtc_supported : Crtc → Plane → Bool
get_crtc_supported crtc plane = has_bit plane.possible_crtc_mask crtc.pipe
