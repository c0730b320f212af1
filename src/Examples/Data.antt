-- ===== src/Examples/Data.antt =====
-- A display with two planes and one or two layers, and a kernel that accepts what it is asked.
use drm_hwcomposer.Base.{ℕ, suc, true, false, none, some, [], ◌∷◌, pos, neg, has_bit, if◌then◌else◌}
use drm_hwcomposer.Resources.{Plane, Crtc}
use drm_hwcomposer.Mode.{default_mode}
use drm_hwcomposer.Connector.{Connector}
use drm_hwcomposer.Layer.{DrmLayer, new_layer, Bo, Rect}
use drm_hwcomposer.Planner.{greedy_stage}
use drm_hwcomposer.Composition.{Pools}
use drm_hwcomposer.Kernel.{Kernel}
use drm_hwcomposer.Compositor.State.{Compositor}
use drm_hwcomposer.Display.Layer.{HwcLayer, new_hwc_layer, device, client, CompositionType}
use drm_hwcomposer.Display.State.{Display, Layers}
use drm_hwcomposer.Display.Compose.{Platform}

-- The kernel counts the commits that are no tests.
abbrev pub kernel : Kernel ℕ
kernel = record {
  can_alloc = λ k. true;
  add_result = λ k pset r. pos 1;
  commit = λ k pset flags. (pos 0, if has_bit flags 8 then k else suc k);
  out_fence = λ k pipe. pos 7;
  set_property = λ k object property v. (pos 0, k);
  create_blob = λ k info. (pos 0, 61, k);
  destroy_blob = λ k blob. (pos 0, k);
}

abbrev pub plane_of : ℕ → ℕ → Plane
plane_of id kind = record {
  id = id;
  possible_crtc_mask = 1;
  kind = kind;
  crtc_property = 1;
  fb_property = 2;
  crtc_x_property = 3;
  crtc_y_property = 4;
  crtc_w_property = 5;
  crtc_h_property = 6;
  src_x_property = 7;
  src_y_property = 8;
  src_w_property = 9;
  src_h_property = 10;
  rotation_property = 11;
  alpha_property = 0;
  in_fence_fd_property = 12;
}

abbrev pub primary_plane : Plane
primary_plane = plane_of 31 1

abbrev pub overlay_plane : Plane
overlay_plane = plane_of 32 0

abbrev pub crtc : Crtc
crtc = record {
  id = 40;
  pipe = 0;
  display = pos 0;
  active_property = 20;
  mode_property = 21;
  out_fence_ptr_property = 22;
}

abbrev pub connector : Connector
connector = record {
  id = 50;
  encoder = some 45;
  display = pos 0;
  kind = 14;
  state = 1;
  mm_width = 100;
  mm_height = 60;
  possible_encoders = 45 ∷ [];
  dpms_property = 23;
  crtc_id_property = 24;
  writeback_fb_id = 0;
  writeback_out_fence = 0;
  modes = [];
  active_mode = default_mode;
}

abbrev pub frame : Rect
frame = record { left = pos 0; top = pos 0; right = pos 100; bottom = pos 60 }

abbrev pub bo : Bo
bo = record { width = 100; height = 60; format = 0; fb_id = 70; usage = 0 }

abbrev pub drm_layer : DrmLayer
drm_layer = record new_layer {
  sf_handle = 9;
  buffer = some bo;
  display_frame = frame;
  source_crop = frame;
}

abbrev pub pools : Pools
pools = record { primary = primary_plane ∷ []; overlay = overlay_plane ∷ [] }

abbrev pub compositor : Compositor ℕ
compositor = record {
  connector = some connector;
  crtc = some crtc;
  active_composition = none;
  is_active = true;
  mode = record { needs_modeset = false; mode = default_mode; blob_id = 0; old_blob_id = 0 };
  frames_composited = 0;
  vsync_enabled = false;
  flatten_countdown = pos 60;
  kernel_state = 0;
}

abbrev pub platform : Platform
platform = record {
  importer = record { import_bo = λ h. (pos 0, bo); copy_handle = λ h. (pos 0, h) };
  dup = λ fd. pos 90;
  sync_merge = λ a b. pos 91;
}

abbrev pub layer_at : ℕ → CompositionType → CompositionType → HwcLayer
layer_at z wanted validated = record new_hwc_layer {
  sf_type = wanted;
  validated_type = validated;
  buffer = 9;
  display_frame = frame;
  source_crop = frame;
  z_order = z;
}

-- Three layers: the top one is SurfaceFlinger's, the two below ask for a plane.
abbrev pub layers : Layers
layers =
    (0, layer_at 2 client client)
    ∷ (1, layer_at 0 device device)
    ∷ (2, layer_at 1 device client)
    ∷ []

abbrev pub display : Display ℕ
display = record {
  compositor = compositor;
  crtc = some crtc;
  planner = greedy_stage ∷ [];
  primary_planes = primary_plane ∷ [];
  overlay_planes = overlay_plane ∷ [];
  layer_idx = 3;
  layers = layers;
  client_layer = layer_at 0 device device;
  retire_fence = neg 1;
  next_retire_fence = neg 1;
  color_mode = pos 0;
  frame_no = 0;
}
