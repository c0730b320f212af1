-- ===== src/Examples/Flattening.antt =====
-- Flattening: a frame of two layers on a display whose CRTC has a writeback connector.
use drm_hwcomposer.Base.{
  ℕ, ◌≡◌, refl, true, false, Option, none, some, List, [], ◌∷◌, ℤ, pos, neg, length,
}
use drm_hwcomposer.Resources.{Plane}
use drm_hwcomposer.Connector.{Connector}
use drm_hwcomposer.Layer.{Importer}
use drm_hwcomposer.Planner.{greedy_stage}
use drm_hwcomposer.Planner.Stages.{holds, shows}
use drm_hwcomposer.Composition.{
  Composition, new_composition, add_plane_composition, frame as frame_type,
}
use drm_hwcomposer.Composition.Accounting.{has_id}
use drm_hwcomposer.Kernel.{add_property, add_both, add_each}
use drm_hwcomposer.Commit.{
  commit_planes, rotation_of, plane_alpha, layer_requests, optional_property,
}
use drm_hwcomposer.Compositor.State.{countdown_expired}
use drm_hwcomposer.Compositor.Frame.{commit_request, after_commit}
use drm_hwcomposer.Framebuffer.{Graphics, new_framebuffer}
use drm_hwcomposer.Flatten.State.{Flattener, Setting, squashed_plane}
use drm_hwcomposer.Flatten.Serial.{squash_serial, serial_rest}
use drm_hwcomposer.Flatten.Concurrent.{squash_concurrent}
use drm_hwcomposer.Flatten.Idle.{Surroundings, count_down, vsync, flatten_active_composition}
use drm_hwcomposer.Flatten.Planes.{
  supported_with, last_primary, squash_serial-once, squash_concurrent-serial,
}
use drm_hwcomposer.Flatten.Newer.{LeavesCompositor, serial_rest-newer}
use drm_hwcomposer.Flatten.Countdown.{at_count, attempted, quiet, vsync-flattens}
use drm_hwcomposer.Examples.Data.{
  kernel, primary_plane, overlay_plane, plane_of, crtc, connector, drm_layer, bo, compositor,
}

abbrev graphics : Graphics
graphics = record { sync_wait = λ fence ms. pos 0; new_buffer = λ w h. 77 }

abbrev importer : Importer
importer = record { import_bo = λ h. (pos 0, bo); copy_handle = λ h. (pos 0, h) }

abbrev planes : List Plane
planes = primary_plane ∷ overlay_plane ∷ plane_of 33 1 ∷ []

abbrev setting : Setting ℕ
setting = record {
  importer = some importer;
  planner = greedy_stage ∷ [];
  planes = planes;
  graphics = graphics;
  stored_fence = λ k. pos 9;
}

abbrev writeback_conn : Connector
writeback_conn = record connector { kind = 18; writeback_fb_id = 70; writeback_out_fence = 71 }

abbrev idle_frame : Composition
idle_frame = record new_composition {
  crtc = some crtc;
  kind = frame_type;
  layers = drm_layer ∷ drm_layer ∷ [];
}

abbrev flattener : Flattener ℕ
flattener = record {
  compositor = record compositor {
    active_composition = some idle_frame;
    flatten_countdown = pos 1;
  };
  framebuffers = new_framebuffer ∷ new_framebuffer ∷ new_framebuffer ∷ [];
  framebuffer_index = 2;
  writeback_fence = neg 1;
  closed = [];
}

abbrev surroundings : Surroundings ℕ
surroundings = record {
  display = pos 0;
  setting = setting;
  writeback_conn = some writeback_conn;
  target = record {
    has_device = true;
    connector = some connector;
    crtc = some crtc;
    setting = setting;
    raw = none;
    mode_id = 0;
  };
  index = 0;
}

-- The blank at which the countdown expires puts the frame on the screen as one layer.
abbrev outcome : Option (Option ℤ × Flattener ℕ) → Option (Option ℤ × ℕ × ℕ × ℕ)
outcome none = none
outcome (some (ret, f)) = some (
  ret,
  elim f.compositor.active_composition [ none ↦ 0 | some c ↦ length c.layers ],
  f.framebuffer_index,
  f.compositor.kernel_state,
)

outcome-vsync : outcome (vsync kernel kernel surroundings flattener) ≡ some (some (pos 0), 1, 0, 2)
unfolding vsync flatten_active_composition commit_planes rotation_of plane_alpha layer_requests
    add_property add_both add_each optional_property count_down commit_request after_commit
outcome-vsync = refl

squash_serial-once_example :
    let done = squash_serial crtc none planes new_composition in
    shows
      (has_id 33)
      (add_plane_composition (squashed_plane crtc done.0) done.1).1.composition_planes
    ≡ holds (supported_with crtc (has_id 33)) planes
squash_serial-once_example = squash_serial-once (has_id 33) crtc planes new_composition refl

squash_concurrent-serial_example :
    squash_concurrent crtc none planes new_composition
    ≡ squash_serial crtc none (last_primary crtc planes) new_composition
squash_concurrent-serial_example = squash_concurrent-serial crtc planes new_composition

-- The countdown was set anew meanwhile.
abbrev newer : Flattener ℕ
newer = at_count (pos 60) flattener

newer-counts : countdown_expired newer.compositor ≡ false
unfolding countdown_expired
newer-counts = refl

serial_rest-newer_example :
    LeavesCompositor newer (serial_rest kernel setting writeback_conn new_composition 2 newer)
serial_rest-newer_example =
    serial_rest-newer kernel setting writeback_conn new_composition 2 new_framebuffer importer newer
      refl refl newer-counts

vsync-flattens_example :
    (quiet kernel kernel surroundings 3 (at_count (pos 4) flattener)
      ≡ some (at_count (pos 1) flattener))
    × (vsync kernel kernel surroundings (at_count (pos 1) flattener)
        ≡ attempted
            (flatten_active_composition kernel kernel surroundings (at_count (pos 0) flattener)))
    × (vsync kernel kernel surroundings (at_count (neg 5) flattener)
        ≡ attempted
            (flatten_active_composition kernel kernel surroundings (at_count (neg 6) flattener)))
vsync-flattens_example = vsync-flattens kernel kernel surroundings 3 5 flattener
