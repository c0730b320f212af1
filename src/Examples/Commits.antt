-- ===== src/Examples/Commits.antt =====
-- The compositor: requests, tests and mode changes.
use drm_hwcomposer.Base.{
  ℕ, suc, ◌≡◌, ◌≢◌, refl, true, false, some, List, [], ◌∷◌, ◌++◌, false, ℤ, pos, neg, Bool, ◌==◌,
  is_set, if◌then◌else◌, arith,
}
use drm_hwcomposer.Planner.{CompositionPlane, layer_plane, greedy_stage}
use drm_hwcomposer.Composition.{Composition, new_composition, disabled_plane, frame as frame_type}
use drm_hwcomposer.Kernel.{Kernel, Request, add_property, add_both, add_each}
use drm_hwcomposer.Commit.{
  commit_planes, rotation_of, plane_alpha, layer_requests, optional_property,
}
use drm_hwcomposer.Commit.Duty.{Duty, off, on, all_ask}
use drm_hwcomposer.Commit.Complete.{commit_planes-adds}
use drm_hwcomposer.Compositor.State.{Compositor, destroy_property_blob, apply_dpms}
use drm_hwcomposer.Compositor.Frame.{commit_request, after_commit, finish_modeset}
use drm_hwcomposer.Compositor.Apply.{test_composition}
use drm_hwcomposer.Compositor.Testing.{test_composition-pure}
use drm_hwcomposer.Compositor.Lost.{commit_request-lost}
use drm_hwcomposer.Compositor.Stale.{finish_modeset-stale}
use drm_hwcomposer.Examples.Data.{
  kernel, primary_plane, overlay_plane, crtc, connector, drm_layer, bo, compositor,
}

abbrev planes : List CompositionPlane
planes = layer_plane crtc primary_plane 0 ∷ disabled_plane (some crtc) overlay_plane ∷ []

abbrev duties : List Duty
duties = on primary_plane crtc drm_layer bo ∷ off overlay_plane ∷ []

rotation-none : rotation_of 0 ≡ 1
unfolding rotation_of
rotation-none = refl

alpha-opaque : plane_alpha drm_layer ≡ 0xffff
unfolding plane_alpha
alpha-opaque = refl

commit_planes-adds_example :
    commit_planes kernel 0 (drm_layer ∷ []) planes (pos 1) [] ≡ some (pos 0, [] ++ all_ask duties)
commit_planes-adds_example =
    commit_planes-adds kernel (λ k pset r. refl) 0 (drm_layer ∷ []) duties planes (pos 1) []
      (
        (
          0,
          refl,
          refl,
          refl,
          refl,
          refl,
          record {
            imported = refl;
            valid_fb = refl;
            fence = refl;
            rotation = rw rotation-none;
            alpha = rw alpha-opaque;
          },
        ),
        ((refl, refl), tt),
      )

abbrev composition : Composition
composition = record new_composition {
  crtc = some crtc;
  planner = greedy_stage ∷ [];
  kind = frame_type;
  layers = drm_layer ∷ [];
  composition_planes = planes;
}

abbrev tested : Composition
tested = record composition { out_fence = pos 7 }

composition-test : test_composition kernel composition compositor ≡ some (pos 0, compositor, tested)
unfolding test_composition commit_planes rotation_of plane_alpha layer_requests add_property
    add_both add_each optional_property commit_request after_commit
composition-test = refl

test_composition-pure_example : compositor ≡ compositor
test_composition-pure_example =
    test_composition-pure kernel (λ k pset. refl) composition tested compositor compositor (pos 0)
      composition-test

-- A mode is waiting, whose predecessor has the blob 60.
abbrev switching : Compositor ℕ
switching = record compositor {
  mode = record compositor.mode { needs_modeset = true; blob_id = 61; old_blob_id = 60 };
}

abbrev refuse : ℕ → List Request → ℕ → ℤ × ℕ
refuse k pset flags = (neg 22, k)

blob-destroyed : is_set (destroy_property_blob kernel 60 0).0 ≡ false
unfolding destroy_property_blob
blob-destroyed = refl

power-set :
    is_set
      (apply_dpms kernel composition
        (record switching { kernel_state = (destroy_property_blob kernel 60 0).1 })).0
    ≡ false
unfolding destroy_property_blob apply_dpms
power-set = refl

commit_request-lost_example :
    let done = commit_request kernel composition false crtc connector (neg 22) [] switching in
    (done.0 ≡ pos 0)
    × (done.1.mode.needs_modeset ≡ false)
    × (done.1.connector ≡ some (record connector { active_mode = done.1.mode.mode }))
    × (done
        ≡ commit_request
            (record kernel { commit = refuse })
            composition
            false
            crtc
            connector
            (neg 22)
            []
            switching)
commit_request-lost_example =
    commit_request-lost kernel refuse composition crtc connector (neg 22) [] switching refl refl
      blob-destroyed power-set

-- A kernel that refuses the power mode, and destroys no blob but the first time.
abbrev null_state : ℕ → Bool
null_state k = k == 0

abbrev once : Kernel ℕ
once = record kernel {
  set_property = λ k object property v. (neg 22, k);
  destroy_blob = λ k blob. (if null_state k then pos 0 else neg 2, suc k);
}

sixty-set : switching.mode.old_blob_id ≢ 0
sixty-set h = ground arith

once-destroyed : is_set (destroy_property_blob once 60 0).0 ≡ false
unfolding destroy_property_blob
once-destroyed = refl

once-unpowered :
    is_set
      (apply_dpms once composition
        (record switching { kernel_state = (destroy_property_blob once 60 0).1 })).0
    ≡ true
unfolding destroy_property_blob apply_dpms
once-unpowered = refl

abbrev stuck : Compositor ℕ
stuck = record switching { kernel_state = 1 }

stuck-mode : stuck.mode ≡ (finish_modeset once composition connector switching).1.mode
unfolding finish_modeset
stuck-mode = refl

finish_modeset-stale_example :
    let again = finish_modeset once composition connector stuck in
    (is_set (finish_modeset once composition connector switching).0 ≡ true)
    × (again.0 ≡ neg 2)
    × (again.1.mode ≡ switching.mode)
finish_modeset-stale_example =
    finish_modeset-stale once composition composition connector connector switching stuck sixty-set
      once-destroyed once-unpowered stuck-mode refl
