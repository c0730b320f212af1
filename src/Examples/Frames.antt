-- ===== src/Examples/Frames.antt =====
-- A frame that is presented: SurfaceFlinger's layer and one that gets a plane of its own.
use drm_hwcomposer.Base.{ℕ, ◌≡◌, refl, some, [], ◌∷◌, ◌++◌, neg}
use drm_hwcomposer.Resources.{Plane}
use drm_hwcomposer.Layer.{DrmLayer, import_buffer, set_transform}
use drm_hwcomposer.Planner.{get_usable_planes}
use drm_hwcomposer.Kernel.{allow_modeset_flag}
use drm_hwcomposer.Commit.{rotation_of, plane_alpha}
use drm_hwcomposer.Commit.Duty.{CanShow, all_ask}
use drm_hwcomposer.Commit.Planned.{Assignment}
use drm_hwcomposer.Compositor.Accepted.{Accepts, fence_asked}
use drm_hwcomposer.Display.Layer.{no_error, populate_drm_layer}
use drm_hwcomposer.Display.State.{Display}
use drm_hwcomposer.Display.Zmap.{frame_entries}
use drm_hwcomposer.Display.Compose.{import_entries, present_display}
use drm_hwcomposer.Display.Shown.{
  frame_of, display_pools, imported, IsPresentable, present_display-commits,
}
use drm_hwcomposer.Examples.Data.{
  kernel, platform, display, crtc, connector, primary_plane, overlay_plane, bo, drm_layer,
}

-- A kernel that counts its commits, of which tests are none.
kernel-Accepts : Accepts kernel
kernel-Accepts = record {
  allocs = λ k. refl;
  adds = λ k pset r. refl;
  commits = λ k pset flags. refl;
}

abbrev imported_layer : DrmLayer
imported_layer = record drm_layer { handle = some 9 }

imported_layer-CanShow : (p : Plane) → CanShow p imported_layer bo
unfolding rotation_of plane_alpha
imported_layer-CanShow p = record {
  imported = refl;
  valid_fb = refl;
  fence = refl;
  rotation = refl;
  alpha = refl;
}

-- The client layer is shown by the one plane, the layer above it by the other.
imported_layers : (imported platform display).1 ≡ imported_layer ∷ imported_layer ∷ []
unfolding frame_entries import_entries import_buffer populate_drm_layer set_transform
imported_layers = refl

display-IsPresentable : IsPresentable kernel kernel-Accepts platform crtc display
unfolding frame_entries import_entries import_buffer populate_drm_layer get_usable_planes
    set_transform
display-IsPresentable = record {
  some_entry = refl;
  imports = refl;
  showable = record {
    split = record { primaries = (refl, tt); others = (refl, tt) };
    frames = refl;
    on_crtc = refl;
    usable = refl;
    primaries_show = (
      (
        (bo, imported_layer-CanShow primary_plane),
        ((bo, imported_layer-CanShow primary_plane), tt),
      ),
      tt,
    );
    overlays_show = (
      (
        (bo, imported_layer-CanShow overlay_plane),
        ((bo, imported_layer-CanShow overlay_plane), tt),
      ),
      tt,
    );
  };
  steady = record { has_connector = (connector, refl); has_crtc = refl; no_mode = refl };
}

present_display-commits_example :
    (a : Assignment (frame_of (imported platform display).1 display) (display_pools display))
    × (d' : Display ℕ) × (present_display kernel platform display
        ≡ some (no_error, some (neg 1), d'))
    × (d'.compositor.kernel_state
        ≡ (kernel.commit 0 (fence_asked crtc ++ all_ask a.given) allow_modeset_flag).1)
present_display-commits_example =
    present_display-commits kernel kernel-Accepts platform crtc display (λ k pset. refl)
      display-IsPresentable
