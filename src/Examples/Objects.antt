-- ===== src/Examples/Objects.antt =====
-- Fences, modes, CRTCs, vertical blanks and messages.
use drm_hwcomposer.Base.{
  ◌↔◌, ◌⊎◌, false, true, ◌≢◌, min, ℕ, ◌+◌, ◌*◌, ◌≤◌, ◌<◌, ◌≡◌, All, refl, ◌&&◌, none, some, List,
  [], ◌∷◌, pos, neg, arith, eagain,
}
use drm_hwcomposer.Mode.{Mode, ModeInfo, default_mode, to_info, strncpy, display_mode_len}
use drm_hwcomposer.Connector.{Connector, new_modes}
use drm_hwcomposer.Importer.{close_handles}
use drm_hwcomposer.Importer.Handles.{uses, close_handles_lem}
use drm_hwcomposer.Connector.Modes.{IsUpdated, new_modes-IsUpdated}
use drm_hwcomposer.Device.State.{Encoder, Device, no_device, get_encoder, get_crtc}
use drm_hwcomposer.Device.Pipe.{try_encoder, create_display_pipe, attach_writeback}
use drm_hwcomposer.Connector.{connected, internal, external}
use drm_hwcomposer.Device.Init.{find_primary, is_candidate, is_internal_candidate}
use drm_hwcomposer.Device.Primary.{find_primary_lem}
use drm_hwcomposer.Device.Binding.{KeepsCrtcs, create_display_pipe-KeepsCrtcs}
use drm_hwcomposer.Device.Unattached.{attach_writeback-unattached}
use drm_hwcomposer.Vsync.{get_phased_vsync}
use drm_hwcomposer.Vsync.Phase.{get_phased_vsync_lem}
use drm_hwcomposer.Guards.{empty_fd, destroy}
use drm_hwcomposer.Guards.Ownership.{Call, set, give_up, drop, run, given, times, run-owns}
use drm_hwcomposer.Uevent.{handles}
use drm_hwcomposer.Uevent.Message.{any, names_minor, names_other, handles_lem}
use drm_hwcomposer.Hwc.Function.{
  display_hook, present_display, present_display_function, get_function,
}
use drm_hwcomposer.Hwc.Table.{descriptor_of, get_function_iff}
use drm_hwcomposer.Examples.Data.{crtc, connector}

get_phased_vsync_lem_example :
    (n : ℕ) × (k : ℕ) × (get_phased_vsync (pos 100) 16 (pos 150) ≡ pos n)
    × (n ≡ 100 + 16 * k)
    × (150 < n)
    × (n ≤ 150 + 16)
get_phased_vsync_lem_example = get_phased_vsync_lem 100 16 150 (omega arith) (omega arith)

abbrev calls : List Call
calls = set (pos 5) ∷ set (pos 6) ∷ give_up ∷ set (pos 7) ∷ drop ∷ set (pos 8) ∷ []

run-owns_example :
    times (pos 5) (run calls empty_fd).0
      + times (pos 5) (run calls empty_fd).1
      + times (pos 5) (destroy (run calls empty_fd).2)
    ≡ times (pos 5) (destroy empty_fd) + times (pos 5) (given calls)
run-owns_example = run-owns (pos 5) calls empty_fd refl

abbrev wide : Mode
wide = record default_mode { id = 1; h_display = 1920; v_display = 1080 }

abbrev infos : List ModeInfo
infos =
    record (to_info default_mode) { hdisplay = 1280 }
    ∷ record (to_info default_mode) { hdisplay = 1920; vdisplay = 1080 }
    ∷ []

new_modes-IsUpdated_example :
    IsUpdated
      (wide ∷ [])
      1
      (new_modes (wide ∷ []) 1 infos).0
      (new_modes (wide ∷ []) 1 infos).1
      infos
unfolding to_info
new_modes-IsUpdated_example = new_modes-IsUpdated (wide ∷ []) 1 infos (omega arith)

abbrev encoder : Encoder
encoder = record {
  id = 45;
  crtc = some 40;
  display = neg 1;
  possible_crtcs = 40 ∷ [];
  possible_clones = [];
}

-- A device with one CRTC, which the display 0 has.
abbrev device : Device
device = record no_device {
  crtcs = crtc ∷ [];
  encoders = encoder ∷ [];
  connectors = connector ∷ [];
}

create_display_pipe-KeepsCrtcs_example :
    KeepsCrtcs (pos 0) (crtc ∷ []) (create_display_pipe connector device).1.crtcs
create_display_pipe-KeepsCrtcs_example = create_display_pipe-KeepsCrtcs connector device

-- A second connector, unplugged, that could only use the same CRTC.
abbrev unplugged : Connector
unplugged = record connector { id = 51; encoder = none; display = pos 1; state = 2 }

encoder-busy : try_encoder (pos 1) 45 device ≡ (eagain, device)
unfolding try_encoder get_encoder get_crtc
encoder-busy = refl

attach_writeback-unattached_example :
    (create_display_pipe unplugged device ≡ (pos 0, device))
    × (attach_writeback (λ id. none) unplugged device ≡ none)
attach_writeback-unattached_example =
    attach_writeback-unattached (λ id. none) unplugged device refl refl (encoder-busy, tt)

handles_lem_example :
    handles ("DEVTYPE=drm_minor" ∷ "HOTPLUG=0" ∷ [])
    ≡ any names_minor ("DEVTYPE=drm_minor" ∷ "HOTPLUG=0" ∷ [])
      && any names_other ("DEVTYPE=drm_minor" ∷ "HOTPLUG=0" ∷ [])
handles_lem_example = handles_lem ("DEVTYPE=drm_minor" ∷ "HOTPLUG=0" ∷ [])

-- "640".
abbrev name : List ℕ
name = 54 ∷ 52 ∷ 48 ∷ []

abbrev info : ModeInfo
info = record (to_info default_mode) {
  hdisplay = 640;
  vdisplay = 480;
  vrefresh = 60;
  name = strncpy display_mode_len name;
}

abbrev named : Mode
named = record wide { name = name }

-- A mode that is too wide for the kernel's description of it.
abbrev too_wide : Mode
too_wide = record default_mode { h_display = 65537 }

abbrev shared_handle : ℕ
shared_handle = 8

shared-set : shared_handle ≢ 0
shared-set h = ground arith

-- The three planes of a YVU buffer share a handle.
close_handles_lem_example :
    (uses 8 (close_handles (λ h. pos 0) (8 ∷ 8 ∷ 8 ∷ 0 ∷ []) 4).0
      ≡ min 1 (uses 8 (8 ∷ 8 ∷ 8 ∷ 0 ∷ [])))
    × (uses 8 (close_handles (λ h. pos 0) (8 ∷ 8 ∷ 8 ∷ 0 ∷ []) 4).1 ≡ 0)
close_handles_lem_example =
    close_handles_lem (λ h. pos 0) (8 ∷ 8 ∷ 8 ∷ 0 ∷ []) 4 8 (λ h. refl) refl shared-set

find_primary_lem_example :
    ((c : Connector) × (find_primary (unplugged ∷ connector ∷ []) ≡ some c)
      × (c.state ≡ connected)
      × ((internal c ≡ true)
          ⊎ ((external c ≡ true)
              × All (λ x. is_internal_candidate x ≡ false) (unplugged ∷ connector ∷ []))))
    ⊎ ((find_primary (unplugged ∷ connector ∷ []) ≡ none)
        × All (λ x. is_candidate x ≡ false) (unplugged ∷ connector ∷ []))
find_primary_lem_example = find_primary_lem (unplugged ∷ connector ∷ [])

get_function_iff_example :
    (get_function present_display_function ≡ some (display_hook present_display))
    ↔ (present_display_function ≡ descriptor_of (display_hook present_display))
get_function_iff_example = get_function_iff present_display_function (display_hook present_display)
