-- ===== src/Display/Kept.antt =====
-- The handles of a display's layers, under the operations that neither make nor destroy a layer
-- (drmhwctwo.cpp).
use drm_hwcomposer.Base.{
  ℕ, suc, length, ◌-◌, ◌≡◌, refl, ◌∙◌, Bool, true, false, Option, none, some, List, [], ◌∷◌, ℤ,
  arith, holds-if, holds-option, ◌==◌, is_set, is_neg, null, neg,
}
use drm_hwcomposer.Layer.{DrmLayer}
use drm_hwcomposer.Kernel.{Kernel}
use drm_hwcomposer.Composition.{
  Composition, new_composition, init, set_layers, disable_all, Pools, Planned, planned, null_crtc,
  plan,
}
use drm_hwcomposer.Compositor.State.{Compositor}
use drm_hwcomposer.Compositor.Apply.{apply_composition, test_composition}
use drm_hwcomposer.Display.Layer.{Error, device, HwcLayer, set_validated_type, populate_drm_layer}
use drm_hwcomposer.Display.State.{
  Layers, Display, change_layer, each_layer, take_fences, get_release_fences,
}
use drm_hwcomposer.Display.Handles.{handles}
use drm_hwcomposer.Display.Zmap.{Entry, frame_entries, device_entries}
use drm_hwcomposer.Display.Compose.{
  Platform, import_entries, give_fence, give_fences, add_fence_to_retire_fence, commit_composition,
  plan_composition, create_composition,
}
use drm_hwcomposer.Display.Validate.{available_planes, mark_devices, settle_types, assign_types}

pub change_layer-handles :
    (h : ℕ) (f : HwcLayer → HwcLayer) (layers : Layers)
    → handles (change_layer h f layers) ≡ handles layers
unfolding change_layer
change_layer-handles h f [] = refl
change_layer-handles h f ((k, l) ∷ rest) = ground (arith, change_layer-handles h f rest)

pub each_layer-handles :
    (f : HwcLayer → HwcLayer) (layers : Layers) → handles (each_layer f layers) ≡ handles layers
each_layer-handles f [] = refl
each_layer-handles f ((k, l) ∷ rest) = λ i. k ∷ each_layer-handles f rest i

take_fences-handles :
    (capacity num : ℕ) (layers : Layers)
    → handles (take_fences capacity num layers).2 ≡ handles layers
unfolding take_fences
take_fences-handles capacity num [] = refl
take_fences-handles capacity num ((k, l) ∷ rest) =
    ground (arith, take_fences-handles capacity (suc num) rest)

pub get_release_fences-handles :
    (n : Option ℕ) (layers : Layers) → handles (get_release_fences n layers).3 ≡ handles layers
unfolding get_release_fences
get_release_fences-handles none layers = refl
get_release_fences-handles (some n) layers = take_fences-handles n 0 layers

settle_types-handles : (layers : Layers) → handles (settle_types layers).1 ≡ handles layers
unfolding settle_types
settle_types-handles [] = refl
settle_types-handles ((k, l) ∷ rest) = λ i. k ∷ settle_types-handles rest i

mark_devices-handles :
    (avail : ℕ) (es : List Entry) (layers : Layers)
    → handles (mark_devices avail es layers) ≡ handles layers
unfolding mark_devices
mark_devices-handles avail [] layers = refl
mark_devices-handles avail (e ∷ es) layers =
    holds-if (λ ls. handles ls ≡ handles layers) (avail == 0) refl
      (mark_devices-handles (avail - 1) es _
        ∙ holds-option (λ ls. handles ls ≡ handles layers) e.handle
            (λ h. change_layer h (set_validated_type device) layers) refl
            (λ h. change_layer-handles h (set_validated_type device) layers))

pub assign_types-handles :
    (failed : Bool) (planes : ℕ) (layers : Layers)
    → handles (assign_types failed planes layers).1 ≡ handles layers
unfolding assign_types
assign_types-handles failed planes layers =
    settle_types-handles _
    ∙ holds-if (λ ls. handles ls ≡ handles layers) failed refl
        (mark_devices-handles (available_planes planes (length layers)) (device_entries layers [])
          layers)

holds-planned :
    {B : Type 0} (P : B → Type 0) (p : Planned) {z : B} (f : ℤ → Composition → Pools → B)
    → P z
    → ((ret : ℤ) (c : Composition) (left : Pools) → P (f ret c left))
    → P (elim p [ null_crtc ↦ z | planned ret c left ↦ f ret c left ])
holds-planned P null_crtc f n q = n
holds-planned P (planned ret c left) f n q = q ret c left

-- A property of the display that a result brings.
abbrev pub Brings : {K : Type 0} → (Display K → Type 0) → Option (Error × Display K) → Type 0
Brings P none = Unit
Brings P (some (e, d)) = P d

-- What CreateComposition changes of a display has no part in the property.
pub record IsStable {K : Type 0} (P : Display K → Type 0) : Type 0 where
  pub by_layer :
      (h : ℕ) (f : HwcLayer → HwcLayer) (d : Display K)
      → P d
      → P (record d { layers = change_layer h f d.layers })
  pub by_client_layer : (l : HwcLayer) (d : Display K) → P d → P (record d { client_layer = l })
  pub by_fence : (f : ℤ) (d : Display K) → P d → P (record d { next_retire_fence = f })
  pub by_compositor : (s : Compositor K) (d : Display K) → P d → P (record d { compositor = s })

module _ {K : Type 0} (P : Display K → Type 0) (stable : IsStable P) where
  give_fence-keeps : (e : Entry) (d : Display K) → P d → P (give_fence e d)
  unfolding give_fence
  give_fence-keeps e d h =
      holds-option P e.handle _ (stable.by_client_layer (populate_drm_layer d.client_layer).1 d h)
        (λ k. stable.by_layer k (λ l. (populate_drm_layer l).1) d h)

  give_fences-keeps : (es : List Entry) (d : Display K) → P d → P (give_fences es d)
  unfolding give_fences
  give_fences-keeps [] d h = h
  give_fences-keeps (e ∷ es) d h = give_fences-keeps es (give_fence e d) (give_fence-keeps e d h)

  add_fence-keeps :
      (platform : Platform) (fd : ℤ) (d : Display K)
      → P d
      → P (add_fence_to_retire_fence platform fd d)
  unfolding add_fence_to_retire_fence
  add_fence-keeps platform fd d h = holds-if P (is_neg fd) h (
      holds-if P (is_neg d.next_retire_fence) (stable.by_fence (platform.dup fd) d h)
        (stable.by_fence (platform.sync_merge d.next_retire_fence fd) d h))

  module _ (kernel : Kernel K) (platform : Platform) where
    commit_composition-keeps :
        (test : Bool) (c : Composition) (d : Display K)
        → P d
        → Brings P (commit_composition kernel platform test c d)
    unfolding commit_composition
    commit_composition-keeps true c d h =
        holds-option (Brings P) (test_composition kernel c d.compositor) _ tt
          (λ r. stable.by_compositor r.1 d h)
    commit_composition-keeps false c d h =
        let fenced = add_fence_to_retire_fence platform c.out_fence d in
        holds-option (Brings P)
          (apply_composition kernel (record c { out_fence = neg 1 }) fenced.compositor) _ tt
          (λ r. stable.by_compositor r.1 fenced (add_fence-keeps platform c.out_fence d h))

    plan_composition-keeps :
        (test : Bool) (ls : List DrmLayer) (d : Display K)
        → P d
        → Brings P (plan_composition kernel platform test ls d)
    unfolding plan_composition
    plan_composition-keeps test ls d h =
        let fresh = (init d.crtc d.planner d.frame_no new_composition).1 in
        let filled = set_layers ls true fresh in
        let pools : Pools = record { primary = d.primary_planes; overlay = d.overlay_planes } in
        holds-if (Brings P) (is_set filled.0) h (
          holds-planned (Brings P) (plan filled.1 pools) _ tt (λ ret c left.
            holds-if (Brings P) (is_set ret) h (
              commit_composition-keeps test (disable_all left.overlay (disable_all left.primary c))
                d h)))

    -- CreateComposition keeps what it has no part in.
    pub create_composition-keeps :
        (test : Bool) (d : Display K) → P d → Brings P (create_composition kernel platform test d)
    unfolding create_composition
    create_composition-keeps test d h =
        let entries = frame_entries test d.layers d.client_layer in
        let imported = import_entries platform.importer entries in
        let given = give_fences-keeps imported.2 d h in
        holds-if (Brings P) (null entries) h (
          holds-if (Brings P) (is_set imported.0) given
            (plan_composition-keeps test imported.1 (give_fences imported.2 d) given))

module _ {K : Type 0} where
  -- The display has layers with these handles, and gives this one next.
  abbrev pub HasHandles : List ℕ → ℕ → Display K → Type 0
  HasHandles ks next d = (handles d.layers ≡ ks) × (d.layer_idx ≡ next)

  -- The planes of the display, their CRTC and the planner.
  abbrev pub HasPipe : Display K → Display K → Type 0
  HasPipe d0 d =
      (d.crtc ≡ d0.crtc)
      × (d.planner ≡ d0.planner)
      × (d.primary_planes ≡ d0.primary_planes)
      × (d.overlay_planes ≡ d0.overlay_planes)

  -- The display has the handles and the pipe of another.
  abbrev pub Same : Display K → Display K → Type 0
  Same d0 d = HasHandles (handles d0.layers) d0.layer_idx d × HasPipe d0 d

  abbrev pub Keeps : Display K → Option (Error × Display K) → Type 0
  Keeps d0 = Brings (Same d0)

  pub Same-refl : (d : Display K) → Same d d
  Same-refl d = ((refl, refl), (refl, refl, refl, refl))

  Same-IsStable : (d0 : Display K) → IsStable (Same d0)
  Same-IsStable d0 = record {
    by_layer = λ k f d h. ((change_layer-handles k f d.layers ∙ h.0.0, h.0.1), h.1);
    by_client_layer = λ l d h. h;
    by_fence = λ f d h. h;
    by_compositor = λ s d h. h;
  }

  pub create_composition-Keeps :
      (kernel : Kernel K) (platform : Platform) (d0 : Display K) (test : Bool) (d : Display K)
      → Same d0 d
      → Keeps d0 (create_composition kernel platform test d)
  create_composition-Keeps kernel platform d0 =
      create_composition-keeps (Same d0) (Same-IsStable d0) kernel platform
