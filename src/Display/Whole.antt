-- ===== src/Display/Whole.antt =====
-- What ValidateDisplay promises of the frame that PresentDisplay then builds (drmhwctwo.cpp).
use drm_hwcomposer.Base.{
  ℕ, suc, ◌+◌, ◌^◌, ◌≤◌, ◌<◌, ◌≡◌, refl, ap, ◌∙◌, Bool, true, false, none, some, List, [], ◌∷◌, pos,
  length, length-append, min, ltb, if◌then◌else◌, All, arith, select,
}
use drm_hwcomposer.Resources.{Plane, Crtc, get_crtc_supported}
use drm_hwcomposer.Layer.{Importer}
use drm_hwcomposer.Kernel.{Kernel}
use drm_hwcomposer.Planner.{greedy_stage, get_usable_planes}
use drm_hwcomposer.Composition.{Composition, planned, Pools, disable_all, plan}
use drm_hwcomposer.Composition.Whole.{showings, plan-shows-each}
use drm_hwcomposer.Display.Layer.{
  Error, HwcLayer, CompositionType, client, device, is_client, is_device,
}
use drm_hwcomposer.Display.State.{Layers, Display}
use drm_hwcomposer.Display.Zmap.{
  Entry, emplace_entry, Collected, nothing_collected, collect, collect_layer, layer_entry,
  frame_entries,
}
use drm_hwcomposer.Display.Client.{IsWhole, whole}
use drm_hwcomposer.Display.Compose.{Platform, import_entries}
use drm_hwcomposer.Display.Validate.{validate_display}
use drm_hwcomposer.Display.Counts.{devices, clients}
use drm_hwcomposer.Display.Fit.{validate_display_fit}
use drm_hwcomposer.Display.Kept.{HasPipe, Same, Same-refl}
use drm_hwcomposer.Display.Calls.{validate_display-Keeps}
use drm_hwcomposer.Display.Shown.{frame_of, display_pools, imported}

length-emplace_entry :
    (before : ℕ → ℕ → Bool) (e : Entry) (es : List Entry)
    → length (emplace_entry before e es) ≤ suc (length es)
unfolding emplace_entry
length-emplace_entry before e [] = omega arith
length-emplace_entry before e (f ∷ rest) = ground (arith, length-emplace_entry before e rest)

abbrev one_if : Bool → ℕ
one_if b = if b then 1 else 0

collect_layer-bound :
    (t : CompositionType) (l : ℕ × HwcLayer) (c : Collected)
    → (length (collect_layer t l c).z_map ≤ length c.z_map + one_if (is_device t))
      × (one_if (collect_layer t l c).use_client_layer
          ≤ one_if c.use_client_layer + one_if (is_client t))
unfolding collect_layer
collect_layer-bound device l c =
    (omega (arith, length-emplace_entry ltb (layer_entry l) c.z_map), omega arith)
collect_layer-bound client l c = (omega arith, omega arith)
collect_layer-bound _ l c = (omega arith, omega arith)

collect-bound :
    (ls : Layers) (c : Collected)
    → (length (collect false ls c).z_map ≤ length c.z_map + devices ls)
      × (one_if (collect false ls c).use_client_layer ≤ one_if c.use_client_layer + clients ls)
unfolding collect
collect-bound [] c = (omega arith, omega arith)
collect-bound ((h, l) ∷ ls) c =
    let c1 = collect_layer l.validated_type (h, l) c in
    ground (arith, collect-bound ls c1, collect_layer-bound l.validated_type (h, l) c)

frame_entries-bound :
    (ls : Layers) (client_layer : HwcLayer)
    → length (frame_entries false ls client_layer) ≤ devices ls + min 1 (clients ls)
unfolding frame_entries
frame_entries-bound ls client_layer =
    let c = collect false ls nothing_collected in
    let client_entry : Entry = record {
      z = c.client_z_order;
      handle = none;
      layer = client_layer;
    } in
    ground
      (arith, collect-bound ls nothing_collected, length-emplace_entry ltb client_entry c.z_map)

import_entries-bound :
    (importer : Importer) (es : List Entry) → length (import_entries importer es).1 ≤ length es
unfolding import_entries
import_entries-bound importer [] = omega arith
import_entries-bound importer (e ∷ es) = ground (arith, import_entries-bound importer es)

length-select :
    (q : Plane → Bool) (ps : List Plane)
    → All (λ p. q p ≡ true) ps
    → length (select q ps) ≡ length ps
length-select q [] h = refl
length-select q (p ∷ ps) h = ground (arith, length-select q ps h.1)

usable-length :
    (crtc : Crtc) (primary overlay : List Plane)
    → All (λ p. get_crtc_supported crtc p ≡ true) primary
    → All (λ p. get_crtc_supported crtc p ≡ true) overlay
    → length (get_usable_planes crtc primary overlay) ≡ length primary + length overlay
unfolding get_usable_planes
usable-length crtc primary overlay hp ho =
    let supported = get_crtc_supported crtc in
    omega (
      arith,
      length-append {0} (select supported primary) (select supported overlay),
      length-select supported primary hp,
      length-select supported overlay ho,
    )

module _ {K : Type 0} (kernel : Kernel K) (platform : Platform) where
  -- The frame that PresentDisplay builds from what ValidateDisplay left fits the planes.
  validated-fits :
      (crtc : Crtc) (d d' : Display K) (e : Error) (num_types num_requests : ℕ)
      → 0 < length d.primary_planes + length d.overlay_planes
      → length d.primary_planes + length d.overlay_planes < 2 ^ 64
      → All (λ p. get_crtc_supported crtc p ≡ true) d.primary_planes
      → All (λ p. get_crtc_supported crtc p ≡ true) d.overlay_planes
      → validate_display kernel platform d ≡ some (e, num_types, num_requests, d')
      → HasPipe d d'
        × (length (imported platform d').1
            ≤ length (get_usable_planes crtc d'.primary_planes d'.overlay_planes))
  validated-fits crtc d d' e num_types num_requests h k hp ho run =
      let same : Same d d' = rw run at (validate_display-Keeps kernel d platform d (Same-refl d)) in
      let kept = same.1 in
      let (fit, counted) =
        validate_display_fit kernel platform d d' e num_types num_requests h k run in
      (
        kept,
        omega (
          arith,
          fit,
          counted,
          frame_entries-bound d'.layers d'.client_layer,
          import_entries-bound platform.importer (frame_entries false d'.layers d'.client_layer),
          usable-length crtc d.primary_planes d.overlay_planes hp ho,
          ap (λ ps. length (get_usable_planes crtc ps d'.overlay_planes)) kept.2,
          ap (λ ps. length (get_usable_planes crtc d.primary_planes ps)) kept.3,
        ),
      )

  -- A display has at least one plane and fewer than 2^64, all of which its CRTC supports, and plans
  -- with the greedy stage alone. Then the frame that ValidateDisplay left is whole, and the layers
  -- that PresentDisplay imports of it can be planned, and of the composition with the planes left
  -- over disabled exactly one plane shows each of them.
  pub validated-shown :
      (crtc : Crtc) (d d' : Display K) (e : Error) (num_types num_requests i : ℕ)
      → 0 < length d.primary_planes + length d.overlay_planes
      → length d.primary_planes + length d.overlay_planes < 2 ^ 64
      → All (λ p. get_crtc_supported crtc p ≡ true) d.primary_planes
      → All (λ p. get_crtc_supported crtc p ≡ true) d.overlay_planes
      → d.crtc ≡ some crtc
      → d.planner ≡ greedy_stage ∷ []
      → validate_display kernel platform d ≡ some (e, num_types, num_requests, d')
      → i < length (imported platform d').1
      → IsWhole platform d'
        × (c : Composition) × (left : Pools) × (plan
              (frame_of (imported platform d').1 d')
              (display_pools d')
            ≡ planned (pos 0) c left)
        × (showings i (disable_all left.overlay (disable_all left.primary c)).composition_planes
            ≡ 1)
  validated-shown crtc d d' e num_types num_requests i h k hp ho on_crtc greedy run below =
      let (kept, fits) = validated-fits crtc d d' e num_types num_requests h k hp ho run in
      let (c, left, planned_, shown) =
        plan-shows-each (frame_of (imported platform d').1 d') crtc (display_pools d') i refl
          (kept.0 ∙ on_crtc) (kept.1 ∙ greedy) fits below in
      (whole platform d', c, left, planned_, shown)
