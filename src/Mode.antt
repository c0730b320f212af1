-- ===== src/Mode.antt =====
-- drmmode.h and drmmode.cpp: a display mode, and the kernel's description of one.
pub mod Convert
use drm_hwcomposer.Base.{ℕ, zero, suc, ◌%◌, ◌^◌, Bool, ◌&&◌, ◌==◌, List, [], ◌∷◌, if◌then◌else◌}

-- The bytes of an array of characters in front of its first NUL, of which a std::string is made.
unfoldable pub c_string : List ℕ → List ℕ
c_string [] = []
c_string (b ∷ bs) = let rest = c_string bs in if b == 0 then [] else b ∷ rest

-- The array of a size that `strncpy` fills from a string: cut at the size, and filled up with NULs.
unfoldable pub strncpy : ℕ → List ℕ → List ℕ
strncpy zero bs = []
strncpy (suc n) [] = 0 ∷ strncpy n []
strncpy (suc n) (b ∷ bs) =
    let ended = strncpy n [] in let rest = strncpy n bs in if b == 0 then 0 ∷ ended else b ∷ rest

-- DRM_DISPLAY_MODE_LEN.
abbrev pub display_mode_len : ℕ
display_mode_len = 32

-- `drmModeModeInfo` and `drm_mode_modeinfo`, which have the same fields: those from `hdisplay` to
-- `vscan` have 16 bits, the other numbers 32, and the name is an array of 32 characters.
pub record ModeInfo : Type 0 where
  pub clock : ℕ
  pub hdisplay : ℕ
  pub hsync_start : ℕ
  pub hsync_end : ℕ
  pub htotal : ℕ
  pub hskew : ℕ
  pub vdisplay : ℕ
  pub vsync_start : ℕ
  pub vsync_end : ℕ
  pub vtotal : ℕ
  pub vscan : ℕ
  pub vrefresh : ℕ
  pub flags : ℕ
  pub kind : ℕ
  pub name : List ℕ

pub record Mode : Type 0 where
  pub id : ℕ
  pub clock : ℕ
  pub h_display : ℕ
  pub h_sync_start : ℕ
  pub h_sync_end : ℕ
  pub h_total : ℕ
  pub h_skew : ℕ
  pub v_display : ℕ
  pub v_sync_start : ℕ
  pub v_sync_end : ℕ
  pub v_total : ℕ
  pub v_scan : ℕ
  pub v_refresh : ℕ
  pub flags : ℕ
  pub kind : ℕ
  pub name : List ℕ

-- `DrmMode() = default`.
abbrev pub default_mode : Mode
default_mode = record {
  id = 0;
  clock = 0;
  h_display = 0;
  h_sync_start = 0;
  h_sync_end = 0;
  h_total = 0;
  h_skew = 0;
  v_display = 0;
  v_sync_start = 0;
  v_sync_end = 0;
  v_total = 0;
  v_scan = 0;
  v_refresh = 0;
  flags = 0;
  kind = 0;
  name = [];
}

-- The constructor DrmMode(drmModeModeInfoPtr).
unfoldable pub of_info : ModeInfo → Mode
unfolding c_string
of_info m = record {
  id = 0;
  clock = m.clock;
  h_display = m.hdisplay;
  h_sync_start = m.hsync_start;
  h_sync_end = m.hsync_end;
  h_total = m.htotal;
  h_skew = m.hskew;
  v_display = m.vdisplay;
  v_sync_start = m.vsync_start;
  v_sync_end = m.vsync_end;
  v_total = m.vtotal;
  v_scan = m.vscan;
  v_refresh = m.vrefresh;
  flags = m.flags;
  kind = m.kind;
  name = c_string m.name;
}

-- DrmMode::operator==, which compares neither the refresh rate nor the name.
unfoldable pub same_mode : Mode → ModeInfo → Bool
same_mode a m =
    a.clock == m.clock
    && a.h_display == m.hdisplay
    && a.h_sync_start == m.hsync_start
    && a.h_sync_end == m.hsync_end
    && a.h_total == m.htotal
    && a.h_skew == m.hskew
    && a.v_display == m.vdisplay
    && a.v_sync_start == m.vsync_start
    && a.v_sync_end == m.vsync_end
    && a.v_total == m.vtotal
    && a.v_scan == m.vscan
    && a.flags == m.flags
    && a.kind == m.kind

-- An assignment to a field of type __u16.
abbrev pub to_u16 : ℕ → ℕ
to_u16 n = n % 2 ^ 16

-- DrmMode::ToDrmModeModeInfo, whose members have 32 bits each.
unfoldable pub to_info : Mode → ModeInfo
unfolding strncpy
to_info a = record {
  clock = a.clock;
  hdisplay = to_u16 a.h_display;
  hsync_start = to_u16 a.h_sync_start;
  hsync_end = to_u16 a.h_sync_end;
  htotal = to_u16 a.h_total;
  hskew = to_u16 a.h_skew;
  vdisplay = to_u16 a.v_display;
  vsync_start = to_u16 a.v_sync_start;
  vsync_end = to_u16 a.v_sync_end;
  vtotal = to_u16 a.v_total;
  vscan = to_u16 a.v_scan;
  vrefresh = a.v_refresh;
  flags = a.flags;
  kind = a.kind;
  name = strncpy display_mode_len a.name;
}
