-- ===== src/Hwc/Table.antt =====
-- The table of functions read in both directions.
use drm_hwcomposer.Base.{◌≡◌, refl, ◌↔◌, Option, none, some}
use drm_hwcomposer.Hwc.Function.{
  Hook, DeviceMethod, DisplayMethod, LayerMethod, device_hook, display_hook, layer_hook,
  create_virtual_display, destroy_virtual_display, dump, get_max_virtual_display_count,
  register_callback, accept_display_changes, create_layer, destroy_layer, get_active_config,
  get_changed_composition_types, get_client_target_support, get_color_modes, get_display_attribute,
  get_display_configs, get_display_name, get_display_requests, get_display_type, get_doze_support,
  get_hdr_capabilities, get_release_fences, present_display, set_active_config, set_client_target,
  set_color_mode, set_color_transform, set_output_buffer, set_power_mode, set_vsync_enabled,
  validate_display, set_cursor_position, set_layer_blend_mode, set_layer_buffer, set_layer_color,
  set_layer_composition_type, set_layer_dataspace, set_layer_display_frame, set_layer_plane_alpha,
  set_layer_sideband_stream, set_layer_source_crop, set_layer_surface_damage, set_layer_transform,
  set_layer_visible_region, set_layer_z_order, FunctionDescriptor, invalid_function, other_function,
  create_virtual_display_function, destroy_virtual_display_function, dump_function,
  get_max_virtual_display_count_function, register_callback_function,
  accept_display_changes_function, create_layer_function, destroy_layer_function,
  get_active_config_function, get_changed_composition_types_function,
  get_client_target_support_function, get_color_modes_function, get_display_attribute_function,
  get_display_configs_function, get_display_name_function, get_display_requests_function,
  get_display_type_function, get_doze_support_function, get_hdr_capabilities_function,
  get_release_fences_function, present_display_function, set_active_config_function,
  set_client_target_function, set_color_mode_function, set_color_transform_function,
  set_output_buffer_function, set_power_mode_function, set_vsync_enabled_function,
  validate_display_function, set_cursor_position_function, set_layer_blend_mode_function,
  set_layer_buffer_function, set_layer_color_function, set_layer_composition_type_function,
  set_layer_dataspace_function, set_layer_display_frame_function, set_layer_plane_alpha_function,
  set_layer_sideband_stream_function, set_layer_source_crop_function,
  set_layer_surface_damage_function, set_layer_transform_function,
  set_layer_visible_region_function, set_layer_z_order_function, get_function,
}

-- The descriptor under which SurfaceFlinger finds a method of the device.
abbrev device_descriptor : DeviceMethod → FunctionDescriptor
device_descriptor create_virtual_display = create_virtual_display_function
device_descriptor destroy_virtual_display = destroy_virtual_display_function
device_descriptor dump = dump_function
device_descriptor get_max_virtual_display_count = get_max_virtual_display_count_function
device_descriptor register_callback = register_callback_function

-- The descriptor under which SurfaceFlinger finds a method of a display.
abbrev display_descriptor : DisplayMethod → FunctionDescriptor
display_descriptor accept_display_changes = accept_display_changes_function
display_descriptor create_layer = create_layer_function
display_descriptor destroy_layer = destroy_layer_function
display_descriptor get_active_config = get_active_config_function
display_descriptor get_changed_composition_types = get_changed_composition_types_function
display_descriptor get_client_target_support = get_client_target_support_function
display_descriptor get_color_modes = get_color_modes_function
display_descriptor get_display_attribute = get_display_attribute_function
display_descriptor get_display_configs = get_display_configs_function
display_descriptor get_display_name = get_display_name_function
display_descriptor get_display_requests = get_display_requests_function
display_descriptor get_display_type = get_display_type_function
display_descriptor get_doze_support = get_doze_support_function
display_descriptor get_hdr_capabilities = get_hdr_capabilities_function
display_descriptor get_release_fences = get_release_fences_function
display_descriptor present_display = present_display_function
display_descriptor set_active_config = set_active_config_function
display_descriptor set_client_target = set_client_target_function
display_descriptor set_color_mode = set_color_mode_function
display_descriptor set_color_transform = set_color_transform_function
display_descriptor set_output_buffer = set_output_buffer_function
display_descriptor set_power_mode = set_power_mode_function
display_descriptor set_vsync_enabled = set_vsync_enabled_function
display_descriptor validate_display = validate_display_function

-- The descriptor under which SurfaceFlinger finds a method of a layer.
abbrev layer_descriptor : LayerMethod → FunctionDescriptor
layer_descriptor set_cursor_position = set_cursor_position_function
layer_descriptor set_layer_blend_mode = set_layer_blend_mode_function
layer_descriptor set_layer_buffer = set_layer_buffer_function
layer_descriptor set_layer_color = set_layer_color_function
layer_descriptor set_layer_composition_type = set_layer_composition_type_function
layer_descriptor set_layer_dataspace = set_layer_dataspace_function
layer_descriptor set_layer_display_frame = set_layer_display_frame_function
layer_descriptor set_layer_plane_alpha = set_layer_plane_alpha_function
layer_descriptor set_layer_sideband_stream = set_layer_sideband_stream_function
layer_descriptor set_layer_source_crop = set_layer_source_crop_function
layer_descriptor set_layer_surface_damage = set_layer_surface_damage_function
layer_descriptor set_layer_transform = set_layer_transform_function
layer_descriptor set_layer_visible_region = set_layer_visible_region_function
layer_descriptor set_layer_z_order = set_layer_z_order_function

abbrev pub descriptor_of : Hook → FunctionDescriptor
descriptor_of (device_hook m) = device_descriptor m
descriptor_of (display_hook m) = display_descriptor m
descriptor_of (layer_hook m) = layer_descriptor m

abbrev Names : FunctionDescriptor → Option Hook → Type 0
Names f none = Unit
Names f (some h) = f ≡ descriptor_of h

get_function-Names : (f : FunctionDescriptor) → Names f (get_function f)
unfolding get_function
get_function-Names invalid_function = tt
get_function-Names (other_function n) = tt
get_function-Names _ = refl

get_function-device : (m : DeviceMethod) → get_function (device_descriptor m) ≡ some (device_hook m)
unfolding get_function
get_function-device dump = refl
get_function-device _ = refl

get_function-display :
    (m : DisplayMethod) → get_function (display_descriptor m) ≡ some (display_hook m)
unfolding get_function
get_function-display create_layer = refl
get_function-display _ = refl

get_function-layer : (m : LayerMethod) → get_function (layer_descriptor m) ≡ some (layer_hook m)
unfolding get_function
get_function-layer set_layer_color = refl
get_function-layer _ = refl

get_function-descriptor_of : (h : Hook) → get_function (descriptor_of h) ≡ some h
get_function-descriptor_of (device_hook m) = get_function-device m
get_function-descriptor_of (display_hook m) = get_function-display m
get_function-descriptor_of (layer_hook m) = get_function-layer m

-- HookDevGetFunction gives a hook for its own descriptor and for no other: each of the 43 methods
-- behind the hooks is found under exactly one descriptor.
pub get_function_iff :
    (f : FunctionDescriptor) (h : Hook) → (get_function f ≡ some h) ↔ (f ≡ descriptor_of h)
get_function_iff f h =
    (λ e. rw (e, Names) at (get_function-Names f), λ e. rw e (get_function-descriptor_of h))
