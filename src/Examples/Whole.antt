-- ===== src/Examples/Whole.antt =====
-- The device that HookDevOpen gives shows the frames that it validated.
use drm_hwcomposer.Base.{ℕ, ◌≡◌, refl, false, true, some, none, Option, List, [], ◌∷◌, neg}
use drm_hwcomposer.Resources.{get_crtc_supported}
use drm_hwcomposer.Layer.{import_buffer, set_transform}
use drm_hwcomposer.Planner.{provision_planes}
use drm_hwcomposer.Kernel.{add_property, add_both, add_each}
use drm_hwcomposer.Commit.{
  commit_planes, rotation_of, plane_alpha, layer_requests, optional_property,
}
use drm_hwcomposer.Composition.{Composition, set_layers, init, plan, disable_all, set_display_mode}
use drm_hwcomposer.Compositor.Frame.{commit_request, after_commit}
use drm_hwcomposer.Compositor.Apply.{apply_composition, test_composition}
use drm_hwcomposer.Device.State.{handles_display}
use drm_hwcomposer.Display.Layer.{
  Error, no_error, set_attribute, set_layer_buffer, set_client_target, device, client,
  composition_type, z_order,
}
use drm_hwcomposer.Display.State.{Display, create_layer, find_layer, emplace_layer, change_layer}
use drm_hwcomposer.Display.Zmap.{frame_entries, device_entries}
use drm_hwcomposer.Display.Client.{holds_client}
use drm_hwcomposer.Display.Compose.{import_entries, create_composition}
use drm_hwcomposer.Display.Validate.{validate_display}
use drm_hwcomposer.Display.Switch.{set_active_config}
use drm_hwcomposer.Hwc.Calls.{
  HwcDisplay, attribute, buffer, new_layer, client_target, call_layer, call_display,
}
use drm_hwcomposer.Hwc.State.{find_display, put_display}
use drm_hwcomposer.Hwc.Start.{hook_dev_open, init_primary}
use drm_hwcomposer.Hwc.Root.{call, display_hook, Call, on_display, on_layer, layer_hook, run}
use drm_hwcomposer.Examples.Data.{kernel, platform, display}
use drm_hwcomposer.Vsync.{new_worker}
use drm_hwcomposer.Examples.Calls.{around, opened}

-- Two layers: the lower one asks for a plane, the upper one is composed by SurfaceFlinger, which
-- hands over the buffer with it.
abbrev calls : List Call
calls =
    on_display 0 new_layer
    ∷ on_layer 0 0 (buffer 9 (neg 1))
    ∷ on_layer 0 0 (attribute (composition_type device))
    ∷ on_display 0 new_layer
    ∷ on_layer 0 1 (attribute (composition_type client))
    ∷ on_layer 0 1 (attribute (z_order 3))
    ∷ on_display 0 (client_target 8 (neg 1) 0)
    ∷ []

abbrev or_else : {A : Type 0} → Option A → A → A
or_else none x = x
or_else (some y) x = y

abbrev fallback : HwcDisplay ℕ
fallback = record {
  display = display;
  vsync_worker = new_worker;
  kind = 1;
  mode_id = 0;
  min_resolution = (1, 1);
  max_resolution = (4096, 4096);
  has_connector = true;
}

abbrev reached : HwcDisplay ℕ
reached = or_else (find_display 0 (run kernel around calls opened).1.displays) fallback

abbrev validated : Error × ℕ × ℕ × Display ℕ
validated =
    or_else (validate_display kernel platform reached.display) (no_error, 0, 0, reached.display)

-- The frame holds the client layer.
holds-validated :
    holds_client (frame_entries false validated.3.layers validated.3.client_layer) ≡ true
unfolding run call display_hook layer_hook call_display call_layer create_layer hook_dev_open
    set_active_config apply_composition set_display_mode init set_attribute set_layer_buffer
    find_display put_display find_layer emplace_layer change_layer handles_display init_primary
    validate_display create_composition test_composition frame_entries import_buffer set_layers plan
    provision_planes disable_all set_transform commit_planes rotation_of plane_alpha layer_requests
    add_property add_both add_each optional_property commit_request after_commit device_entries
    import_entries get_crtc_supported set_client_target
holds-validated = refl
