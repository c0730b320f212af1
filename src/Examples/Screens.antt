-- ===== src/Examples/Screens.antt =====
-- Frames of a display: validation, presentation, layers and fences.
use drm_hwcomposer.Base.{
  pos, List, [], ◌∷◌, All, ℕ, ◌+◌, ◌≤◌, ◌≡◌, refl, true, Option, none, some, ℤ, min, if◌then◌else◌,
  ◌==◌, arith,
}
use drm_hwcomposer.Kernel.{add_property, add_both, add_each}
use drm_hwcomposer.Commit.{
  commit_planes, rotation_of, plane_alpha, layer_requests, optional_property,
}
use drm_hwcomposer.Compositor.Frame.{commit_request, after_commit}
use drm_hwcomposer.Planner.{provision_planes}
use drm_hwcomposer.Layer.{import_buffer, set_transform}
use drm_hwcomposer.Composition.{set_layers, init, plan, disable_all}
use drm_hwcomposer.Compositor.Apply.{apply_composition, test_composition}
use drm_hwcomposer.Display.Layer.{Error, no_error, new_hwc_layer}
use drm_hwcomposer.Display.State.{Display, create_layer, find_layer, get_changed_composition_types}
use drm_hwcomposer.Display.Zmap.{frame_entries, device_entries}
use drm_hwcomposer.Display.Compose.{create_composition, present_display}
use drm_hwcomposer.Display.Validate.{validate_display}
use drm_hwcomposer.Display.Counts.{devices, clients, sf_clients}
use drm_hwcomposer.Display.Compose.{import_entries}
use drm_hwcomposer.Display.Taken.{taken, create_composition-takes}
use drm_hwcomposer.Mode.{default_mode}
use drm_hwcomposer.Connector.{Connector}
use drm_hwcomposer.Display.Owners.{uses_of, set_layer_buffer-owns}
use drm_hwcomposer.Display.Layer.{HwcLayer, set_layer_buffer, close_fd, handled_elsewhere}
use drm_hwcomposer.Display.Fit.{validate_display_fit}
use drm_hwcomposer.Display.Changes.{validate_display-changes}
use drm_hwcomposer.Display.Handles.{HandlesIsValid, create_layer_lem}
use drm_hwcomposer.Display.Order.{IsOrdered, has_z, frame_entries-has_z}
use drm_hwcomposer.Display.Entries.{Stands, frame_entries-IsOrdered}
use drm_hwcomposer.Examples.Data.{connector, kernel, platform, display, layers}

frame_entries-IsOrdered_example :
    IsOrdered (frame_entries true layers display.client_layer)
    × All (Stands true layers display.client_layer) (frame_entries true layers display.client_layer)
frame_entries-IsOrdered_example = frame_entries-IsOrdered true layers display.client_layer

frame_entries-has_z_example : has_z 1 (frame_entries true layers display.client_layer) ≡ true
frame_entries-has_z_example = frame_entries-has_z true layers display.client_layer 1 refl

display-HandlesIsValid : HandlesIsValid display
display-HandlesIsValid = record {
  sorted = ((omega arith, (omega arith, tt)), ((omega arith, tt), (tt, tt)));
  below = (omega arith, (omega arith, (omega arith, tt)));
}

create_layer_lem_example :
    let (_, h, d') = create_layer display in
    (find_layer h layers ≡ none)
    × (find_layer h d'.layers ≡ some new_hwc_layer)
    × (find_layer 1 d'.layers ≡ (if 1 == h then some new_hwc_layer else find_layer 1 layers))
    × HandlesIsValid d'
create_layer_lem_example = create_layer_lem display 1 display-HandlesIsValid (omega arith)

abbrev or_else {ℓ} : {A : Type ℓ} → Option A → A → A
or_else none y = y
or_else (some x) y = x

-- A run of each call on the display.
abbrev presented : Error × Option ℤ × Display ℕ
presented = or_else (present_display kernel platform display) (no_error, none, display)

presented-run :
    present_display kernel platform display ≡ some (presented.0, presented.1, presented.2)
unfolding present_display apply_composition frame_entries import_buffer set_layers init plan
    provision_planes disable_all set_transform commit_planes rotation_of plane_alpha layer_requests
    add_property add_both add_each optional_property commit_request after_commit
presented-run = refl

abbrev validated : Error × ℕ × ℕ × Display ℕ
validated = or_else (validate_display kernel platform display) (no_error, 0, 0, display)

validated-run :
    validate_display kernel platform display
    ≡ some (validated.0, validated.1, validated.2, validated.3)
unfolding validate_display create_composition test_composition frame_entries import_buffer
    set_layers init plan provision_planes disable_all set_transform commit_planes rotation_of
    plane_alpha layer_requests add_property add_both add_each optional_property commit_request
    after_commit
validated-run = refl

validate_display_fit_example :
    (devices validated.3.layers + min 1 validated.1 ≤ 2)
    × (validated.1 ≡ clients validated.3.layers)
validate_display_fit_example =
    validate_display_fit kernel platform display validated.3 validated.0 validated.1 validated.2
      (omega arith) (omega arith) validated-run

validate_display-changes_example :
    validated.1
    ≡ (get_changed_composition_types none validated.3.layers).1 + sf_clients validated.3.layers
validate_display-changes_example =
    validate_display-changes kernel platform display validated.3 validated.0 validated.1 validated.2
      validated-run

-- The two runs give a frame to the kernel, and a plane to one of the two layers that ask for one.
presented-commits : presented.2.compositor.kernel_state ≡ 1
unfolding present_display apply_composition frame_entries import_buffer set_layers init plan
    provision_planes disable_all set_transform commit_planes rotation_of plane_alpha layer_requests
    add_property add_both add_each optional_property commit_request after_commit
presented-commits = refl

validated-devices : devices validated.3.layers ≡ 1
unfolding validate_display create_composition test_composition frame_entries import_buffer
    set_layers init plan provision_planes disable_all set_transform commit_planes rotation_of
    plane_alpha layer_requests add_property add_both add_each optional_property commit_request
    after_commit device_entries
validated-devices = refl

abbrev test_run : Error × Display ℕ
test_run = or_else (create_composition kernel platform true display) (no_error, display)

test_run-eq : create_composition kernel platform true display ≡ some (test_run.0, test_run.1)
unfolding create_composition test_composition frame_entries import_buffer set_layers init plan
    provision_planes disable_all set_transform commit_planes rotation_of plane_alpha layer_requests
    add_property add_both add_each optional_property commit_request after_commit
test_run-eq = refl

create_composition-takes_example :
    All
      (λ entry. taken entry test_run.1 ≡ true)
      (import_entries platform.importer (frame_entries true layers display.client_layer)).2
create_composition-takes_example =
    create_composition-takes kernel platform true display test_run.1 test_run.0 test_run-eq

abbrev two_modes : Connector
two_modes = record connector {
  modes = record default_mode { id = 1 } ∷ record default_mode { id = 2 } ∷ [];
}

abbrev name : List ℕ
name = b'd' ∷ b'i' ∷ b's' ∷ b'p' ∷ []

abbrev fenced : HwcLayer
fenced = record display.client_layer { acquire_fence = pos 4 }

abbrev copy_fd : ℤ → ℤ
copy_fd fd = pos 6

set_layer_buffer-owns_example :
    let (_, closed, l') = set_layer_buffer copy_fd 9 (pos 5) fenced in
    uses_of (pos 6) closed + uses_of (pos 6) (close_fd l'.acquire_fence)
    ≡ uses_of (pos 6) (close_fd (pos 4))
      + uses_of (pos 6) (close_fd (pos 5))
      + (if handled_elsewhere fenced.sf_type then 0 else uses_of (pos 6) (close_fd (pos 6)))
set_layer_buffer-owns_example = set_layer_buffer-owns copy_fd 9 6 (pos 5) fenced
