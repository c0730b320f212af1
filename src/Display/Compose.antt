-- ===== src/Display/Compose.antt =====
-- HwcDisplay::CreateComposition and PresentDisplay, and the calls that switch the mode or the power.
use drm_hwcomposer.Base.{
  ◌+◌, ◌%◌, ◌^◌, Bool, true, false, Option, none, some, List, [], ◌∷◌, ℤ, pos, neg, if◌then◌else◌,
  is_neg, is_set, null,
}
use drm_hwcomposer.Layer.{DrmLayer, Importer, import_buffer}
use drm_hwcomposer.Kernel.{Kernel}
use drm_hwcomposer.Composition.{
  Composition, new_composition, init, set_layers, disable_all, Pools, planned, null_crtc, plan,
}
use drm_hwcomposer.Compositor.Apply.{apply_composition, test_composition}
use drm_hwcomposer.Display.Layer.{
  Error, no_error, bad_layer, no_resources, bad_config, bad_parameter, populate_drm_layer,
}
use drm_hwcomposer.Display.State.{Display, change_layer}
use drm_hwcomposer.Display.Zmap.{Entry, frame_entries}

-- The platform below: the importer of buffers, and the fence calls dup and sync_merge.
pub record Platform : Type 0 where
  pub importer : Importer
  pub dup : ℤ → ℤ
  pub sync_merge : ℤ → ℤ → ℤ

-- The loop that adds the layers in z-order: its `ret`, the layers imported, and the entries whose
-- HWC layer has given its acquire fence away.
unfoldable pub import_entries : Importer → List Entry → ℤ × List DrmLayer × List Entry
unfolding populate_drm_layer
import_entries importer [] = (pos 0, [], [])
import_entries importer (e ∷ es) =
    let done = import_buffer importer (populate_drm_layer e.layer).0 in
    let rest = import_entries importer es in
    if is_set done.0 then (done.0, [], e ∷ []) else (rest.0, done.1 ∷ rest.1, e ∷ rest.2)

module _ {K : Type 0} where
  unfoldable pub give_fence : Entry → Display K → Display K
  unfolding populate_drm_layer change_layer
  give_fence e d = elim e.handle [
    | none ↦ record d { client_layer = (populate_drm_layer d.client_layer).1 }
    | some h ↦ record d { layers = change_layer h (λ l. (populate_drm_layer l).1) d.layers }
  ]

  unfoldable pub give_fences : List Entry → Display K → Display K
  unfolding give_fence
  give_fences [] d = d
  give_fences (e ∷ es) d = give_fences es (give_fence e d)

  -- AddFenceToRetireFence.
  unfoldable pub add_fence_to_retire_fence : Platform → ℤ → Display K → Display K
  add_fence_to_retire_fence platform fd d =
      if is_neg fd
      then d
      else if is_neg d.next_retire_fence
      then record d { next_retire_fence = platform.dup fd }
      else record d { next_retire_fence = platform.sync_merge d.next_retire_fence fd }

module _ {K : Type 0} (kernel : Kernel K) (platform : Platform) where
  -- The end of CreateComposition. The out-fence is taken from the composition in front of the
  -- commit that sets it.
  unfoldable pub commit_composition : Bool → Composition → Display K → Option (Error × Display K)
  unfolding add_fence_to_retire_fence
  commit_composition true c d = elim (test_composition kernel c d.compositor) [
    | none ↦ none
    | some (ret, s, c') ↦
        some (if is_set ret then bad_parameter else no_error, record d { compositor = s })
  ]
  commit_composition false c d =
      let d1 = add_fence_to_retire_fence platform c.out_fence d in
      elim (apply_composition kernel (record c { out_fence = neg 1 }) d1.compositor) [
        | none ↦ none
        | some (ret, s) ↦
            some (if is_set ret then bad_parameter else no_error, record d1 { compositor = s })
      ]

  unfoldable pub plan_composition : Bool → List DrmLayer → Display K → Option (Error × Display K)
  unfolding commit_composition
  plan_composition test drm_layers d =
      let fresh = (init d.crtc d.planner d.frame_no new_composition).1 in
      let filled = set_layers drm_layers true fresh in
      let pools : Pools = record { primary = d.primary_planes; overlay = d.overlay_planes } in
      if is_set filled.0 then some (bad_layer, d) else elim (plan filled.1 pools) [
        | null_crtc ↦ none
        | planned ret c left ↦
            if is_set ret
            then some (bad_config, d)
            else commit_composition test (disable_all left.overlay (disable_all left.primary c)) d
      ]

  unfoldable pub create_composition : Bool → Display K → Option (Error × Display K)
  unfolding import_entries give_fences plan_composition
  create_composition test d =
      let entries = frame_entries test d.layers d.client_layer in
      let imported = import_entries platform.importer entries in
      let d1 = give_fences imported.2 d in
      if null entries
      then some (bad_layer, d)
      else if is_set imported.0
      then some (no_resources, d1)
      else plan_composition test imported.1 d1

  -- The end of PresentDisplay, by the error of CreateComposition. The result has the retire fence
  -- that is handed to the caller, where there is one.
  unfoldable pub settle_present : Error → Display K → Error × Option ℤ × Display K
  settle_present bad_layer d = (no_error, some (neg 1), d)
  settle_present no_error d = (
    no_error,
    some d.retire_fence,
    record d {
      retire_fence = d.next_retire_fence;
      next_retire_fence = neg 1;
      frame_no = (d.frame_no + 1) % 2 ^ 32;
    },
  )
  settle_present e d = (e, none, d)

  unfoldable pub present_display : Display K → Option (Error × Option ℤ × Display K)
  unfolding create_composition settle_present
  present_display d = elim (create_composition false d) [
    | none ↦ none
    | some (e, d') ↦ some (settle_present e d')
  ]
