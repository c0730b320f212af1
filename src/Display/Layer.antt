-- ===== src/Display/Layer.antt =====
-- DrmHwcTwo::HwcLayer: what SurfaceFlinger has said of a layer, and how it enters a frame.
-- A call that closes file descriptors returns them in a list, in the order of the calls.
use drm_hwcomposer.Base.{
  ℕ, ◌+◌, ◌*◌, ◌/◌, ◌%◌, ◌^◌, Bool, true, false, not, List, [], ◌∷◌, ◌++◌, ℤ, pos, neg,
  if◌then◌else◌, ◌==◌, is_neg,
}
use drm_hwcomposer.Layer.{
  DrmLayer, new_layer, Rect, no_rect, Blending, no_blending, pre_mult, coverage, set_transform,
}

-- HWC2::Error.
pub data Error : Type 0 where
  no_error bad_config bad_display bad_layer bad_parameter has_changes no_resources : Error
  unsupported : Error

-- HWC2::Composition; `unknown` is any other number that SurfaceFlinger may pass.
pub data CompositionType : Type 0 where
  invalid client device solid_color cursor sideband : CompositionType
  unknown : ℕ → CompositionType

-- The number of an enumerator, by which two values are compared.
abbrev pub type_code : CompositionType → ℕ
type_code invalid = 0
type_code client = 1
type_code device = 2
type_code solid_color = 3
type_code cursor = 4
type_code sideband = 5
type_code (unknown n) = n + 6

abbrev pub is_device : CompositionType → Bool
is_device device = true
is_device _ = false

abbrev pub is_client : CompositionType → Bool
is_client client = true
is_client _ = false

pub data BlendMode : Type 0 where
  none premultiplied coverage_blend other_blend : BlendMode

-- A buffer handle and a file descriptor are numbers; a descriptor below 0 is none. The plane alpha
-- is a float, held in units of 2^-24.
pub record HwcLayer : Type 0 where
  pub sf_type : CompositionType
  pub validated_type : CompositionType
  pub blending : BlendMode
  pub buffer : ℕ
  pub acquire_fence : ℤ
  pub release_fence : ℤ
  pub display_frame : Rect
  pub alpha : ℕ
  pub source_crop : Rect
  pub cursor_x : ℤ
  pub cursor_y : ℤ
  pub transform : ℕ
  pub z_order : ℕ
  pub dataspace : ℕ

abbrev pub new_hwc_layer : HwcLayer
new_hwc_layer = record {
  sf_type = invalid;
  validated_type = invalid;
  blending = none;
  buffer = 0;
  acquire_fence = neg 1;
  release_fence = neg 1;
  display_frame = no_rect;
  alpha = 2 ^ 24;
  source_crop = no_rect;
  cursor_x = pos 0;
  cursor_y = pos 0;
  transform = 0;
  z_order = 0;
  dataspace = 0;
}

unfoldable pub accept_type_change : HwcLayer → HwcLayer
accept_type_change l = record l { sf_type = l.validated_type }

unfoldable pub set_validated_type : CompositionType → HwcLayer → HwcLayer
set_validated_type t l = record l { validated_type = t }

unfoldable pub type_changed : HwcLayer → Bool
type_changed l = not (type_code l.sf_type == type_code l.validated_type)

-- UniqueFd::Set closes the descriptor that it holds, and the destructor of UniqueFd does too.
unfoldable pub close_fd : ℤ → List ℤ
close_fd fd = if is_neg fd then [] else fd ∷ []

-- `acquire_fence_.Set(dup(fence))`, where `copy` is what dup returned.
unfoldable pub set_acquire_fence : ℤ → HwcLayer → List ℤ × HwcLayer
unfolding close_fd
set_acquire_fence copy l = (close_fd l.acquire_fence, record l { acquire_fence = copy })

abbrev pub handled_elsewhere : CompositionType → Bool
handled_elsewhere client = true
handled_elsewhere sideband = true
handled_elsewhere solid_color = true
handled_elsewhere _ = false

-- SetLayerBuffer takes the fence over: the local UniqueFd closes it at the end.
unfoldable pub set_layer_buffer : (ℤ → ℤ) → ℕ → ℤ → HwcLayer → Error × List ℤ × HwcLayer
unfolding set_acquire_fence close_fd
set_layer_buffer dup buffer fence l =
    let set = set_acquire_fence (dup fence) (record l { buffer = buffer }) in
    if handled_elsewhere l.sf_type
    then (no_error, close_fd fence, l)
    else (no_error, set.0 ++ close_fd fence, set.1)

-- HwcDisplay::SetClientTarget, on the client layer.
unfoldable pub set_client_target : (ℤ → ℤ) → ℕ → ℤ → ℕ → HwcLayer → Error × List ℤ × HwcLayer
unfolding set_acquire_fence close_fd
set_client_target dup target fence dataspace l =
    let set = set_acquire_fence (dup fence) (record l { buffer = target }) in
    (no_error, set.0 ++ close_fd fence, record set.1 { dataspace = dataspace })

-- The hooks that store one attribute.
pub data Attribute : Type 0 where
  cursor_position : ℤ → ℤ → Attribute
  blend_mode : BlendMode → Attribute
  composition_type : CompositionType → Attribute
  dataspace : ℕ → Attribute
  display_frame : Rect → Attribute
  plane_alpha : ℕ → Attribute
  source_crop : Rect → Attribute
  transform : ℕ → Attribute
  z_order : ℕ → Attribute
  surface_damage visible_region : Attribute
  color sideband_stream : Attribute

unfoldable pub set_attribute : Attribute → HwcLayer → Error × HwcLayer
set_attribute (cursor_position x y) l = (no_error, record l { cursor_x = x; cursor_y = y })
set_attribute (blend_mode m) l = (no_error, record l { blending = m })
set_attribute (composition_type t) l = (no_error, record l { sf_type = t })
set_attribute (dataspace d) l = (no_error, record l { dataspace = d })
set_attribute (display_frame r) l = (no_error, record l { display_frame = r })
set_attribute (plane_alpha a) l = (no_error, record l { alpha = a })
set_attribute (source_crop r) l = (no_error, record l { source_crop = r })
set_attribute (transform t) l = (no_error, record l { transform = t })
set_attribute (z_order z) l = (no_error, record l { z_order = z })
set_attribute surface_damage l = (no_error, l)
set_attribute visible_region l = (no_error, l)
set_attribute color l = (unsupported, l)
set_attribute sideband_stream l = (unsupported, l)

abbrev drm_blending : BlendMode → Blending
drm_blending none = no_blending
drm_blending premultiplied = pre_mult
drm_blending coverage_blend = coverage
drm_blending other_blend = no_blending

-- `static_cast<uint16_t>(65535.0f * alpha_ + 0.5f)`: in units of 2^-25 the sum is 65535 * 2 * alpha
-- + 2^24.
unfoldable pub alpha_to_u16 : ℕ → ℕ
alpha_to_u16 alpha = (65535 * 2 * alpha + 2 ^ 24) / 2 ^ 25 % 2 ^ 16

-- PopulateDrmLayer, on a DrmHwcLayer that was just created: the DRM layer takes the acquire fence
-- away from the HWC layer.
unfoldable pub populate_drm_layer : HwcLayer → DrmLayer × HwcLayer
unfolding alpha_to_u16
populate_drm_layer l = (
  record new_layer {
    sf_handle = l.buffer;
    acquire_fence = l.acquire_fence;
    blending = drm_blending l.blending;
    display_frame = l.display_frame;
    alpha = alpha_to_u16 l.alpha;
    source_crop = l.source_crop;
    transform = set_transform l.transform;
  },
  record l { acquire_fence = neg 1 },
)
