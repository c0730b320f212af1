-- ===== src/Hwc/Function.antt =====
-- The table of functions: HookDevGetFunction, and the methods that its hooks call.
use drm_hwcomposer.Base.{ℕ, Option, none, some}

-- The methods of DrmHwcTwo that a hook calls.
pub data DeviceMethod : Type 0 where
  create_virtual_display destroy_virtual_display dump get_max_virtual_display_count : DeviceMethod
  register_callback : DeviceMethod

-- The methods of HwcDisplay that a hook calls.
pub data DisplayMethod : Type 0 where
  accept_display_changes create_layer destroy_layer get_active_config : DisplayMethod
  get_changed_composition_types get_client_target_support get_color_modes : DisplayMethod
  get_display_attribute get_display_configs get_display_name get_display_requests : DisplayMethod
  get_display_type get_doze_support get_hdr_capabilities get_release_fences present_display :
      DisplayMethod
  set_active_config set_client_target set_color_mode set_color_transform set_output_buffer :
      DisplayMethod
  set_power_mode set_vsync_enabled validate_display : DisplayMethod

-- The methods of HwcLayer that a hook calls.
pub data LayerMethod : Type 0 where
  set_cursor_position set_layer_blend_mode set_layer_buffer set_layer_color : LayerMethod
  set_layer_composition_type set_layer_dataspace set_layer_display_frame : LayerMethod
  set_layer_plane_alpha set_layer_sideband_stream set_layer_source_crop : LayerMethod
  set_layer_surface_damage set_layer_transform set_layer_visible_region set_layer_z_order :
      LayerMethod

-- What a descriptor's function calls: a method of the device, of a display or of a layer.
pub data Hook : Type 0 where
  device_hook : DeviceMethod → Hook
  display_hook : DisplayMethod → Hook
  layer_hook : LayerMethod → Hook

-- HWC2::FunctionDescriptor; `other_function` is any other number.
pub data FunctionDescriptor : Type 0 where
  invalid_function : FunctionDescriptor
  other_function : ℕ → FunctionDescriptor
  create_virtual_display_function destroy_virtual_display_function dump_function :
      FunctionDescriptor
  get_max_virtual_display_count_function register_callback_function : FunctionDescriptor
  accept_display_changes_function create_layer_function destroy_layer_function : FunctionDescriptor
  get_active_config_function get_changed_composition_types_function : FunctionDescriptor
  get_client_target_support_function get_color_modes_function : FunctionDescriptor
  get_display_attribute_function get_display_configs_function get_display_name_function :
      FunctionDescriptor
  get_display_requests_function get_display_type_function get_doze_support_function :
      FunctionDescriptor
  get_hdr_capabilities_function get_release_fences_function present_display_function :
      FunctionDescriptor
  set_active_config_function set_client_target_function set_color_mode_function : FunctionDescriptor
  set_color_transform_function set_output_buffer_function set_power_mode_function :
      FunctionDescriptor
  set_vsync_enabled_function validate_display_function set_cursor_position_function :
      FunctionDescriptor
  set_layer_blend_mode_function set_layer_buffer_function set_layer_color_function :
      FunctionDescriptor
  set_layer_composition_type_function set_layer_dataspace_function : FunctionDescriptor
  set_layer_display_frame_function set_layer_plane_alpha_function : FunctionDescriptor
  set_layer_sideband_stream_function set_layer_source_crop_function : FunctionDescriptor
  set_layer_surface_damage_function set_layer_transform_function : FunctionDescriptor
  set_layer_visible_region_function set_layer_z_order_function : FunctionDescriptor

-- NULL is `none`.
unfoldable pub get_function : FunctionDescriptor → Option Hook
get_function invalid_function = none
get_function (other_function n) = none
get_function create_virtual_display_function = some (device_hook create_virtual_display)
get_function destroy_virtual_display_function = some (device_hook destroy_virtual_display)
get_function dump_function = some (device_hook dump)
get_function get_max_virtual_display_count_function =
    some (device_hook get_max_virtual_display_count)
get_function register_callback_function = some (device_hook register_callback)
get_function accept_display_changes_function = some (display_hook accept_display_changes)
get_function create_layer_function = some (display_hook create_layer)
get_function destroy_layer_function = some (display_hook destroy_layer)
get_function get_active_config_function = some (display_hook get_active_config)
get_function get_changed_composition_types_function =
    some (display_hook get_changed_composition_types)
get_function get_client_target_support_function = some (display_hook get_client_target_support)
get_function get_color_modes_function = some (display_hook get_color_modes)
get_function get_display_attribute_function = some (display_hook get_display_attribute)
get_function get_display_configs_function = some (display_hook get_display_configs)
get_function get_display_name_function = some (display_hook get_display_name)
get_function get_display_requests_function = some (display_hook get_display_requests)
get_function get_display_type_function = some (display_hook get_display_type)
get_function get_doze_support_function = some (display_hook get_doze_support)
get_function get_hdr_capabilities_function = some (display_hook get_hdr_capabilities)
get_function get_release_fences_function = some (display_hook get_release_fences)
get_function present_display_function = some (display_hook present_display)
get_function set_active_config_function = some (display_hook set_active_config)
get_function set_client_target_function = some (display_hook set_client_target)
get_function set_color_mode_function = some (display_hook set_color_mode)
get_function set_color_transform_function = some (display_hook set_color_transform)
get_function set_output_buffer_function = some (display_hook set_output_buffer)
get_function set_power_mode_function = some (display_hook set_power_mode)
get_function set_vsync_enabled_function = some (display_hook set_vsync_enabled)
get_function validate_display_function = some (display_hook validate_display)
get_function set_cursor_position_function = some (layer_hook set_cursor_position)
get_function set_layer_blend_mode_function = some (layer_hook set_layer_blend_mode)
get_function set_layer_buffer_function = some (layer_hook set_layer_buffer)
get_function set_layer_color_function = some (layer_hook set_layer_color)
get_function set_layer_composition_type_function = some (layer_hook set_layer_composition_type)
get_function set_layer_dataspace_function = some (layer_hook set_layer_dataspace)
get_function set_layer_display_frame_function = some (layer_hook set_layer_display_frame)
get_function set_layer_plane_alpha_function = some (layer_hook set_layer_plane_alpha)
get_function set_layer_sideband_stream_function = some (layer_hook set_layer_sideband_stream)
get_function set_layer_source_crop_function = some (layer_hook set_layer_source_crop)
get_function set_layer_surface_damage_function = some (layer_hook set_layer_surface_damage)
get_function set_layer_transform_function = some (layer_hook set_layer_transform)
get_function set_layer_visible_region_function = some (layer_hook set_layer_visible_region)
get_function set_layer_z_order_function = some (layer_hook set_layer_z_order)
