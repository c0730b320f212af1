-- ===== src/Layer.antt =====
-- drmhwcomposer.h and hwcutils.cpp: a layer of a frame, as the compositor sees it.
-- Buffer handles, buffer objects and fences are the numbers by which the system names them.
use drm_hwcomposer.Base.{
  ℕ, bit_or, Bool, Option, none, some, ℤ, pos, neg, if◌then◌else◌, ◌==◌, has_bit, is_set,
}

-- DrmHwcTransform: the bits 0 to 4.
abbrev pub flip_h : ℕ
flip_h = 1

abbrev pub flip_v : ℕ
flip_v = 2

abbrev pub rotate_90 : ℕ
rotate_90 = 4

abbrev pub rotate_180 : ℕ
rotate_180 = 8

abbrev pub rotate_270 : ℕ
rotate_270 = 16

pub data Blending : Type 0 where
  no_blending pre_mult coverage : Blending

-- `hwc_rect_t`, and `hwc_frect_t` in units of 1 / 65536 of a pixel.
pub record Rect : Type 0 where
  pub left : ℤ
  pub top : ℤ
  pub right : ℤ
  pub bottom : ℤ

abbrev pub no_rect : Rect
no_rect = record { left = pos 0; top = pos 0; right = pos 0; bottom = pos 0 }

-- The fields of `hwc_drm_bo` that the code reads.
pub record Bo : Type 0 where
  pub width : ℕ
  pub height : ℕ
  pub format : ℕ
  pub fb_id : ℕ
  pub usage : ℕ

-- DrmHwcLayer. The buffer is `none` while no buffer has been imported (`!layer.buffer`), and the
-- handle while no copy has been made of the buffer's handle.
pub record DrmLayer : Type 0 where
  pub sf_handle : ℕ
  pub usage : ℕ
  pub buffer : Option Bo
  pub handle : Option ℕ
  pub transform : ℕ
  pub blending : Blending
  pub alpha : ℕ
  pub source_crop : Rect
  pub display_frame : Rect
  pub acquire_fence : ℤ

abbrev pub new_layer : DrmLayer
new_layer = record {
  sf_handle = 0;
  usage = 0;
  buffer = none;
  handle = none;
  transform = 0;
  blending = no_blending;
  alpha = 65535;
  source_crop = no_rect;
  display_frame = no_rect;
  acquire_fence = neg 1;
}

-- GRALLOC_USAGE_PROTECTED is bit 14 of the usage.
unfoldable pub protected_usage : DrmLayer → Bool
protected_usage l = has_bit l.usage 14

-- What the platform does with a buffer handle: Importer::ImportBuffer, and
-- GraphicBufferMapper::importBuffer, which copies the handle.
pub record Importer : Type 0 where
  pub import_bo : ℕ → ℤ × Bo
  pub copy_handle : ℕ → ℤ × ℕ

-- DrmHwcLayer::ImportBuffer. The result is its `ret` and the layer, which keeps what a step that
-- succeeded stored.
unfoldable pub import_buffer : Importer → DrmLayer → ℤ × DrmLayer
import_buffer importer l =
    let bo : ℤ × Bo = importer.import_bo l.sf_handle in
    let copy : ℤ × ℕ = importer.copy_handle l.sf_handle in
    let imported = record l { buffer = some bo.1 } in
    if is_set bo.0
    then (bo.0, l)
    else if is_set copy.0
    then (copy.0, imported)
    else (pos 0, record imported { handle = some copy.1; usage = bo.1.usage })

-- DrmHwcLayer::InitFromDrmHwcLayer, on a layer that was just created.
unfoldable pub init_from_layer : Importer → DrmLayer → ℤ × DrmLayer
unfolding import_buffer
init_from_layer importer src = import_buffer importer (record new_layer {
  blending = src.blending;
  sf_handle = src.sf_handle;
  acquire_fence = neg 1;
  display_frame = src.display_frame;
  alpha = src.alpha;
  source_crop = src.source_crop;
  transform = src.transform;
})

abbrev or_if : Bool → ℕ → ℕ → ℕ
or_if test bits word = if test then bit_or word bits else word

-- DrmHwcLayer::SetTransform, from the HWC_TRANSFORM_* bits: FLIP_H is 1, FLIP_V 2, ROT_90 4,
-- ROT_180 is 3 and ROT_270 is 7.
unfoldable pub set_transform : ℕ → ℕ
set_transform sf =
    if sf == 7
    then rotate_270
    else if sf == 3
    then rotate_180
    else or_if (has_bit sf 2) rotate_90
        (or_if (has_bit sf 1) flip_v (or_if (has_bit sf 0) flip_h 0))

unfoldable pub get_usable_handle : DrmLayer → ℕ
get_usable_handle l = elim l.handle [ none ↦ l.sf_handle | some h ↦ h ]
