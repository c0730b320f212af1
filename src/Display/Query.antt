-- ===== src/Display/Query.antt =====
-- What HwcDisplay tells of itself: modes, attributes, capabilities, its name.
use drm_hwcomposer.Base.{
  ℕ, suc, ◌-◌, ◌*◌, ◌/◌, ◌%◌, ◌^◌, not, ◌&&◌, ◌||◌, Option, none, some, List, [], ◌∷◌, map, ℤ, pos,
  neg, ◌==ℤ◌, if◌then◌else◌, ◌==◌, ltb, min, length, take, find?, is_set,
}
use drm_hwcomposer.Mode.{Mode}
use drm_hwcomposer.Connector.{Connector, RawConnector, update_modes}
use drm_hwcomposer.Display.Layer.{Error, no_error, bad_config, bad_display, unsupported}

abbrev pub mode_ids : Connector → List ℕ
mode_ids conn = map (λ m. m.id) conn.modes

unfoldable pub find_mode : ℕ → Connector → Option Mode
find_mode config conn = find? (λ m. m.id == config) conn.modes

-- GetActiveConfig: a mode with the id 0 is none.
unfoldable pub get_active_config : Connector → Error × Option ℕ
get_active_config conn =
    if conn.active_mode.id == 0 then (bad_config, none) else (no_error, some conn.active_mode.id)

-- GetDisplayConfigs without an array: the modes are read from the connector anew.
unfoldable pub count_display_configs :
    Option RawConnector → ℕ → Connector → Error × Option ℕ × ℕ × Connector
unfolding update_modes
count_display_configs report mode_id conn =
    let done = update_modes report mode_id conn in
    if is_set done.0
    then (bad_display, none, done.1, done.2)
    else (no_error, some (length done.2.modes), done.1, done.2)

-- The loop that fills an array of `num_configs` elements.
unfoldable pub fill_configs : ℕ → ℕ → List Mode → List ℕ
fill_configs idx num_configs [] = []
fill_configs idx num_configs (m ∷ ms) =
    let rest = fill_configs (suc idx) num_configs ms in
    if ltb idx num_configs then m.id ∷ rest else []

-- GetDisplayConfigs with an array: what is written, and their number.
unfoldable pub list_display_configs : ℕ → Connector → Error × ℕ × List ℕ
unfolding fill_configs
list_display_configs num_configs conn =
    let ids = fill_configs 0 num_configs conn.modes in (no_error, length ids, ids)

-- HWC2::Attribute.
pub data DisplayAttribute : Type 0 where
  width height vsync_period dpi_x dpi_y other_attribute : DisplayAttribute

abbrev pub um_per_inch : ℕ
um_per_inch = 25400

dpi : ℕ → ℕ → ℤ
dpi pixels mm = if mm == 0 then neg 1 else pos (pixels * um_per_inch % 2 ^ 32 / mm)

attribute_of : (Mode → ℤ) → DisplayAttribute → Connector → Mode → Error × ℤ
unfolding dpi
attribute_of period width conn m = (no_error, pos m.h_display)
attribute_of period height conn m = (no_error, pos m.v_display)
attribute_of period vsync_period conn m = (no_error, period m)
attribute_of period dpi_x conn m = (no_error, dpi m.h_display conn.mm_width)
attribute_of period dpi_y conn m = (no_error, dpi m.v_display conn.mm_height)
attribute_of period other_attribute conn m = (bad_config, neg 1)

-- GetDisplayAttribute; `period` is one second in nanoseconds by the mode's refresh rate, a float.
unfoldable pub get_display_attribute :
    (Mode → ℤ) → ℕ → DisplayAttribute → Connector → Error × Option ℤ
unfolding find_mode attribute_of
get_display_attribute period config attribute conn = elim (find_mode config conn) [
  | none ↦ (bad_config, none)
  | some m ↦ let found = attribute_of period attribute conn m in (found.0, some found.1)
]

-- GetClientTargetSupport, by the least and the greatest resolution of the device.
-- HAL_DATASPACE_UNKNOWN is 0 and HAL_DATASPACE_STANDARD_UNSPECIFIED is 0 too.
unfoldable pub get_client_target_support : ℕ × ℕ → ℕ × ℕ → ℕ → ℕ → ℕ → Error
get_client_target_support least greatest w h dataspace =
    if ltb w least.0 || ltb h least.1
    then unsupported
    else if ltb greatest.0 w || ltb greatest.1 h
    then unsupported
    else if not (dataspace == 0) && not (dataspace == 0)
    then unsupported
    else no_error

-- GetColorModes and SetColorMode; HAL_COLOR_MODE_NATIVE is 0.
unfoldable pub set_color_mode : ℤ → ℤ → Error × ℤ
set_color_mode mode old = if mode ==ℤ pos 0 then (no_error, mode) else (unsupported, old)

-- GetDisplayName: the name as bytes. Without a buffer the size is asked for; with one of `size`
-- bytes, the number of the bytes that are copied, and the bytes.
unfoldable pub display_name_size : List ℕ → ℕ
display_name_size name = length name % 2 ^ 32

unfoldable pub get_display_name : List ℕ → ℕ → ℕ × List ℕ
get_display_name name size = let n = min (length name - 1) size in (n, take n name)
