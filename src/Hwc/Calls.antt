-- ===== src/Hwc/Calls.antt =====
-- The calls that SurfaceFlinger makes on a display and on a layer, and what they come to.
use drm_hwcomposer.Base.{if◌then◌else◌, ℕ, Bool, Option, none, some, List, [], ◌∷◌, ℤ}
use drm_hwcomposer.Mode.{Mode}
use drm_hwcomposer.Connector.{Connector, RawConnector}
use drm_hwcomposer.Kernel.{Kernel}
use drm_hwcomposer.Vsync.{VsyncWorker, vsync_control, register_callback}
use drm_hwcomposer.Display.Layer.{
  Error, no_error, unsupported, CompositionType, HwcLayer, Attribute, set_attribute,
  set_layer_buffer, set_client_target,
}
use drm_hwcomposer.Display.State.{
  Display, create_layer, destroy_layer, accept_display_changes, get_changed_composition_types,
  get_release_fences,
}
use drm_hwcomposer.Display.Compose.{Platform, present_display}
use drm_hwcomposer.Display.Validate.{validate_display}
use drm_hwcomposer.Display.Query.{
  DisplayAttribute, get_active_config, count_display_configs, list_display_configs,
  get_display_attribute, get_client_target_support, set_color_mode, display_name_size,
  get_display_name,
}
use drm_hwcomposer.Display.Switch.{PowerMode, set_active_config, set_power_mode}

-- A display with what its class keeps beside the compositor and the layers: whether Init has set
-- `connector_`, which is the compositor's connector then. `mode_id` and the resolutions are the
-- device's, whose only display is the primary one.
pub record HwcDisplay (K : Type 0) : Type 0 where
  pub display : Display K
  pub vsync_worker : VsyncWorker
  pub kind : ℕ
  pub mode_id : ℕ
  pub min_resolution : ℕ × ℕ
  pub max_resolution : ℕ × ℕ
  pub has_connector : Bool

-- What the system says in the calls: the platform, drmModeGetConnector's report of a connector, one
-- second by the refresh rate of a mode, and the text of the name.
pub record Surroundings (K : Type 0) : Type 0 where
  pub platform : Platform
  pub report : K → ℕ → Option RawConnector
  pub period : Mode → ℤ
  pub name_of : ℕ → List ℕ

-- An argument that is an array is `none` where it is NULL, and else its number of elements.
pub data DisplayCall : Type 0 where
  accept_changes : DisplayCall
  new_layer : DisplayCall
  drop_layer : ℕ → DisplayCall
  active_config : DisplayCall
  changed_types : Option ℕ → DisplayCall
  client_target_support : ℕ → ℕ → ℕ → DisplayCall
  color_modes : Option ℕ → DisplayCall
  display_attribute : ℕ → DisplayAttribute → DisplayCall
  display_configs : Option ℕ → DisplayCall
  display_name : Option ℕ → DisplayCall
  display_requests display_type doze_support hdr_capabilities : DisplayCall
  release_fences : Option ℕ → DisplayCall
  present : DisplayCall
  choose_config : ℕ → DisplayCall
  client_target : ℕ → ℤ → ℕ → DisplayCall
  choose_color_mode : ℤ → DisplayCall
  color_transform output_buffer : DisplayCall
  power_mode : PowerMode → DisplayCall
  vsync_enabled : Bool → DisplayCall
  validate : DisplayCall

pub data LayerCall : Type 0 where
  attribute : Attribute → LayerCall
  buffer : ℕ → ℤ → LayerCall

-- The error that a call returns, with what it writes through its pointers.
pub data Answer : Type 0 where
  done : Error → Answer
  closed : Error → List ℤ → Answer
  number : Error → Option ℕ → Answer
  value : Error → Option ℤ → Answer
  numbers : Error → ℕ → List ℕ → Answer
  types : Error → ℕ → List (ℕ × CompositionType) → Answer
  fences : Error → ℕ → List (ℕ × ℤ) → Answer
  retire_fence : Error → Option ℤ → Answer
  validated : Error → ℕ → ℕ → Answer
  count : ℕ → Answer
  nothing : Answer

-- GetColorModes: HAL_COLOR_MODE_NATIVE is 0; with an array the number is left as it is.
unfoldable pub get_color_modes : Option ℕ → Answer
get_color_modes none = numbers no_error 1 []
get_color_modes (some n) = numbers no_error n (0 ∷ [])

abbrev put : {K : Type 0} → HwcDisplay K → Display K → HwcDisplay K
put h d = record h { display = d }

-- A query of the connector; a null one would be read.
abbrev pub own_connector : {K : Type 0} → HwcDisplay K → Option Connector
own_connector h = if h.has_connector then h.display.compositor.connector else none

abbrev with_connector : {K : Type 0} {A : Type 0} → HwcDisplay K → (Connector → A) → Option A
with_connector h f = elim (own_connector h) [ none ↦ none | some conn ↦ some (f conn) ]

-- GetDisplayRequests, GetDozeSupport and GetHdrCapabilities write a 0.
abbrev get_display_requests : Answer
get_display_requests = number no_error (some 0)

abbrev get_display_type : {K : Type 0} → HwcDisplay K → Answer
get_display_type h = number no_error (some h.kind)

abbrev get_doze_support : Answer
get_doze_support = number no_error (some 0)

abbrev get_hdr_capabilities : Answer
get_hdr_capabilities = number no_error (some 0)

abbrev set_color_transform : Answer
set_color_transform = done unsupported

abbrev set_output_buffer : Answer
set_output_buffer = done unsupported

abbrev set_vsync_enabled : {K : Type 0} → Bool → HwcDisplay K → Answer × HwcDisplay K
set_vsync_enabled enabled h =
    (done no_error, record h { vsync_worker = vsync_control enabled h.vsync_worker })

abbrev pub register_vsync_callback : {K : Type 0} → ℕ → HwcDisplay K → HwcDisplay K
register_vsync_callback function h = record h {
  vsync_worker = register_callback function h.vsync_worker;
}

-- The method of HwcLayer that a call names, over what dup gives.
unfoldable pub call_layer : (ℤ → ℤ) → LayerCall → HwcLayer → Answer × HwcLayer
call_layer dup (attribute a) l = let (e, l') = set_attribute a l in (done e, l')
call_layer dup (buffer handle fence) l =
    let (e, fds, l') = set_layer_buffer dup handle fence l in (closed e fds, l')

module _ {K : Type 0} (kernel : Kernel K) (w : Surroundings K) where
  -- GetDisplayConfigs.
  unfoldable pub get_display_configs : Option ℕ → HwcDisplay K → Connector → Answer × HwcDisplay K
  unfolding count_display_configs list_display_configs
  get_display_configs none h conn =
      let d = h.display in
      let report = w.report d.compositor.kernel_state conn.id in
      let (e, num, mode_id, conn') = count_display_configs report h.mode_id conn in
      (
        number e num,
        record h {
          display = record d { compositor = record (d.compositor) { connector = some conn' } };
          mode_id = mode_id;
        },
      )
  get_display_configs (some n) h conn =
      let (e, num, ids) = list_display_configs n conn in (numbers e num ids, h)

  unfoldable pub answer_name : Option ℕ → Connector → Answer
  answer_name none conn = number no_error (some (display_name_size (w.name_of conn.id)))
  answer_name (some size) conn =
      let (n, text) = get_display_name (w.name_of conn.id) size in numbers no_error n text

  -- The method of HwcDisplay that a call names, and what it leaves; `none` is a read through a null
  -- pointer.
  unfoldable pub call_display : DisplayCall → HwcDisplay K → Option (Answer × HwcDisplay K)
  unfolding get_display_configs
  call_display accept_changes h =
      let (e, d) = accept_display_changes h.display in some (done e, put h d)
  call_display new_layer h =
      let (e, layer, d) = create_layer h.display in some (number e (some layer), put h d)
  call_display (drop_layer layer) h =
      let (e, d) = destroy_layer layer h.display in some (done e, put h d)
  call_display active_config h =
      with_connector h (λ conn. (let (e, c) = get_active_config conn in number e c, h))
  call_display (changed_types n) h =
      let (e, num, ts) = get_changed_composition_types n h.display.layers in
      some (types e num ts, h)
  call_display (client_target_support width height dataspace) h =
      some (
        done (get_client_target_support h.min_resolution h.max_resolution width height dataspace),
        h,
      )
  call_display (color_modes n) h = some (get_color_modes n, h)
  call_display (display_attribute config a) h =
      with_connector h
        (λ conn. (let (e, v) = get_display_attribute w.period config a conn in value e v, h))
  call_display (display_configs n) h = with_connector h (get_display_configs n h)
  call_display (display_name n) h = with_connector h (λ conn. (answer_name n conn, h))
  call_display display_requests h = some (get_display_requests, h)
  call_display display_type h = some (get_display_type h, h)
  call_display doze_support h = some (get_doze_support, h)
  call_display hdr_capabilities h = some (get_hdr_capabilities, h)
  call_display (release_fences n) h =
      let (e, num, fs, ls) = get_release_fences n h.display.layers in
      let d = h.display in some (fences e num fs, put h (record d { layers = ls }))
  call_display present h = elim (present_display kernel w.platform h.display) [
    | none ↦ none
    | some (e, fence, d) ↦ some (retire_fence e fence, put h d)
  ]
  call_display (choose_config config) h =
      elim (if h.has_connector then set_active_config kernel config h.display else none) [
        | none ↦ none
        | some (e, d) ↦ some (done e, put h d)
      ]
  call_display (client_target target fence dataspace) h =
      let d = h.display in
      let (e, fds, l) = set_client_target w.platform.dup target fence dataspace d.client_layer in
      some (closed e fds, put h (record d { client_layer = l }))
  call_display (choose_color_mode mode) h =
      let d = h.display in
      let (e, m) = set_color_mode mode d.color_mode in
      some (done e, put h (record d { color_mode = m }))
  call_display color_transform h = some (set_color_transform, h)
  call_display output_buffer h = some (set_output_buffer, h)
  call_display (power_mode mode) h = elim (set_power_mode kernel mode h.display) [
    | none ↦ none
    | some (e, d) ↦ some (done e, put h d)
  ]
  call_display (vsync_enabled enabled) h = some (set_vsync_enabled enabled h)
  call_display validate h = elim (validate_display kernel w.platform h.display) [
    | none ↦ none
    | some (e, num_types, num_requests, d) ↦ some (validated e num_types num_requests, put h d)
  ]
