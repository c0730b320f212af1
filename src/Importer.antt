-- ===== src/Importer.antt =====
-- platformdrmgeneric.cpp, platformhisi.cpp and platformminigbm.cpp: importing a buffer of the
-- graphics allocator as a framebuffer, and releasing it.
pub mod Handles
pub mod Create
use drm_hwcomposer.Base.{
  ℕ, zero, suc, ◌+◌, ◌-◌, ◌*◌, ◌/◌, ◌%◌, ◌^◌, Bool, not, ◌||◌, Option, none, some, List, [], ◌∷◌, ℤ,
  einval, if◌then◌else◌, ◌==◌, is_set, map,
}

-- `hwc_drm_bo_t`; the arrays have four elements.
pub record BufferObject : Type 0 where
  pub width : ℕ
  pub height : ℕ
  pub format : ℕ
  pub usage : ℕ
  pub pitches : List ℕ
  pub offsets : List ℕ
  pub gem_handles : List ℕ
  pub fb_id : ℕ

-- A fourcc code of drm_fourcc.h.
abbrev pub fourcc : ℕ → ℕ → ℕ → ℕ → ℕ
fourcc a b c d = a + b * 2 ^ 8 + c * 2 ^ 16 + d * 2 ^ 24

abbrev pub drm_yvu420 : ℕ
drm_yvu420 = fourcc b'Y' b'V' b'1' b'2'

-- `-EINVAL` as a uint32_t.
abbrev pub no_format : ℕ
no_format = 2 ^ 32 - 22

-- ConvertHalFormatToDrm. HAL_PIXEL_FORMAT_RGBA_8888 is 1, RGBX_8888 2, RGB_888 3, RGB_565 4,
-- BGRA_8888 5 and YV12 the code 'YV12'.
unfoldable pub convert_hal_format_to_drm : ℕ → ℕ
convert_hal_format_to_drm hal =
    if hal == 3
    then fourcc b'B' b'G' b'2' b'4'
    else if hal == 5
    then fourcc b'A' b'R' b'2' b'4'
    else if hal == 2
    then fourcc b'X' b'B' b'2' b'4'
    else if hal == 1
    then fourcc b'A' b'B' b'2' b'4'
    else if hal == 4
    then fourcc b'B' b'G' b'1' b'6'
    else if hal == fourcc b'Y' b'V' b'1' b'2'
    then drm_yvu420
    else no_format

-- The fields of a buffer handle that an importer reads.
pub record BufferHandle : Type 0 where
  pub prime_fd : ℤ
  pub width : ℕ
  pub height : ℕ
  pub format : ℕ
  pub usage : ℕ
  pub stride : ℕ
  pub offset : ℕ

-- drmPrimeFDToHandle and drmModeAddFB2: each gives its result and an id.
pub record Gem : Type 0 where
  pub prime_fd_to_handle : ℤ → ℤ × ℕ
  pub add_fb2 : BufferObject → ℤ × ℕ

-- The call of drmModeAddFB2 that ends every import.
add_fb : Gem → BufferObject → ℤ × Option BufferObject
add_fb gem bo = let added = gem.add_fb2 bo in (added.0, some (record bo { fb_id = added.1 }))

abbrev plain_object : BufferHandle → ℕ → ℕ → ℕ → BufferObject
plain_object h format offset gem_handle = record {
  width = h.width;
  height = h.height;
  format = format;
  usage = h.usage;
  pitches = h.stride ∷ 0 ∷ 0 ∷ 0 ∷ [];
  offsets = offset ∷ 0 ∷ 0 ∷ 0 ∷ [];
  gem_handles = gem_handle ∷ 0 ∷ 0 ∷ 0 ∷ [];
  fb_id = 0;
}

-- DrmGenericImporter::ImportBuffer; a handle that is not one of the allocator's is `none`. The
-- object is `none` where the function returns before it writes one.
unfoldable pub import_generic : Gem → Option BufferHandle → ℤ × Option BufferObject
unfolding convert_hal_format_to_drm add_fb
import_generic gem none = (einval, none)
import_generic gem (some h) =
    let imported = gem.prime_fd_to_handle h.prime_fd in
    if is_set imported.0
    then (imported.0, none)
    else add_fb gem (plain_object h (convert_hal_format_to_drm h.format) 0 imported.1)

-- DrmMinigbmImporter::ImportBuffer, whose handles carry the DRM format and the offset.
unfoldable pub import_minigbm : Gem → Option BufferHandle → ℤ × Option BufferObject
unfolding add_fb
import_minigbm gem none = (einval, none)
import_minigbm gem (some h) =
    let imported = gem.prime_fd_to_handle h.prime_fd in
    if is_set imported.0
    then (imported.0, none)
    else add_fb gem (plain_object h h.format h.offset imported.1)

-- MALI_ALIGN to a power of two: `(value + (base - 1)) & ~(base - 1)`.
unfoldable pub mali_align : ℕ → ℕ → ℕ
mali_align value base = (value + (base - 1)) / base * base

-- GRALLOC_USAGE_SW_READ_MASK and _WRITE_MASK are the low eight bits of the usage.
abbrev pub software_usage : ℕ → Bool
software_usage usage = not (usage % 2 ^ 8 == 0)

-- The planes of a YVU 4:2:0 buffer on HiSilicon: the V plane behind the Y plane, then the U plane.
unfoldable pub yvu_object : BufferHandle → ℕ → BufferObject → BufferObject
unfolding mali_align
yvu_object h gem_handle bo =
    let align = if software_usage h.usage then 16 else 128 in
    let adjusted_height = mali_align h.height 2 in
    let y_size = adjusted_height * h.stride in
    let vu_stride = mali_align (h.stride / 2) align in
    let v_size = vu_stride * (adjusted_height / 2) in
    record bo {
      gem_handles = gem_handle ∷ gem_handle ∷ gem_handle ∷ 0 ∷ [];
      pitches = h.stride ∷ vu_stride ∷ vu_stride ∷ 0 ∷ [];
      offsets = 0 ∷ y_size ∷ (y_size + v_size) ∷ 0 ∷ [];
    }

-- HisiImporter::ImportBuffer: an unknown format is an error, behind the import of the handle.
unfoldable pub import_hisi : Gem → Option BufferHandle → ℤ × Option BufferObject
unfolding convert_hal_format_to_drm yvu_object add_fb
import_hisi gem none = (einval, none)
import_hisi gem (some h) =
    let imported = gem.prime_fd_to_handle h.prime_fd in
    let format = convert_hal_format_to_drm h.format in
    let plain = plain_object h format 0 imported.1 in
    if is_set imported.0
    then (imported.0, none)
    else if format == no_format
    then (einval, none)
    else if format == drm_yvu420
    then add_fb gem (yvu_object h imported.1 plain)
    else add_fb gem plain

-- The inner loop of ReleaseBuffer: the later uses of a handle that was closed.
forget : ℕ → List ℕ → List ℕ
forget h = map (λ g. if g == h then 0 else g)

-- The loop of ReleaseBuffer: the handles that DRM_IOCTL_GEM_CLOSE is called for, in order, and the
-- handles that are left in the object.
unfoldable pub close_handles : (ℕ → ℤ) → List ℕ → ℕ → List ℕ × List ℕ
unfolding forget
close_handles ioctl handles zero = ([], handles)
close_handles ioctl [] (suc n) = ([], [])
close_handles ioctl (h ∷ hs) (suc n) =
    let failed = is_set (ioctl h) in
    let rest : List ℕ × List ℕ =
      close_handles ioctl (if h == 0 || failed then hs else forget h hs) n in
    if h == 0 then (rest.0, 0 ∷ rest.1) else (h ∷ rest.0, (if failed then h else 0) ∷ rest.1)

-- DrmGenericImporter::ReleaseBuffer: whether the framebuffer is removed, the handles that are
-- closed, and the object.
unfoldable pub release_buffer : (ℕ → ℤ) → BufferObject → Bool × List ℕ × BufferObject
unfolding close_handles
release_buffer ioctl bo =
    let done = close_handles ioctl bo.gem_handles 4 in
    (not (bo.fb_id == 0), done.0, record bo { gem_handles = done.1 })
