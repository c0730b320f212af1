-- ===== src/Display/Fit.antt =====
-- ValidateDisplay gives planes to no more layers than there are planes, and keeps one for the layer
-- that SurfaceFlinger composes.
use drm_hwcomposer.Base.{
  ℕ, ◌+◌, ◌-◌, ◌^◌, ◌≤◌, ◌<◌, ◌≡◌, refl, Bool, true, false, some, [], ◌∷◌, if◌then◌else◌, length,
  arith, Option-cases, inl, inr, sym, ap, ◌∙◌, min, ◌==◌, ltb,
}
use drm_hwcomposer.Kernel.{Kernel}
use drm_hwcomposer.Display.Layer.{
  populate_drm_layer, Error, no_error, has_changes, invalid, is_device, set_validated_type,
}
use drm_hwcomposer.Display.State.{Layers, Display, each_layer}
use drm_hwcomposer.Display.Zmap.{device_entries}
use drm_hwcomposer.Display.Compose.{Platform, create_composition}
use drm_hwcomposer.Display.Validate.{
  available_planes, mark_devices, assign_types, validate_display, is_failure,
}
use drm_hwcomposer.Display.Counts.{
  devices, clients, mark_devices_bound, settle_types_counts, count-create_composition,
}

available_planes_lem :
    (planes layers : ℕ)
    → 0 < planes
    → planes < 2 ^ 64
    → available_planes planes layers ≡ (if ltb planes layers then planes - 1 else planes)
unfolding available_planes
available_planes_lem planes layers h k = ground arith

-- When no layer had a plane before, the layers that get one and a plane for the client, if any
-- layer is left to it, fit the planes.
pub assign_types_fit :
    (failed : Bool) (planes : ℕ) (layers : Layers)
    → devices layers ≡ 0
    → 0 < planes
    → planes < 2 ^ 64
    → devices (assign_types failed planes layers).1 + min 1 (assign_types failed planes layers).0
      ≤ planes
unfolding assign_types
assign_types_fit true planes layers none_yet h k = omega (arith, settle_types_counts layers)
assign_types_fit false planes layers none_yet h k =
    let avail = available_planes planes (length layers) in
    let marked = mark_devices avail (device_entries layers []) layers in
    ground (
      arith,
      available_planes_lem planes (length layers),
      mark_devices_bound avail (device_entries layers []) layers,
      settle_types_counts marked,
    )

-- The first component of the result counts the layers that were given to the client.
pub assign_types_counts :
    (failed : Bool) (planes : ℕ) (layers : Layers)
    → (assign_types failed planes layers).0 ≡ clients (assign_types failed planes layers).1
unfolding assign_types
assign_types_counts true planes layers = (settle_types_counts layers).0
assign_types_counts false planes layers =
    (settle_types_counts
      (mark_devices (available_planes planes (length layers)) (device_entries layers []) layers)).0

devices-cleared : (layers : Layers) → devices (each_layer (set_validated_type invalid) layers) ≡ 0
unfolding set_validated_type
devices-cleared [] = refl
devices-cleared (l ∷ ls) = devices-cleared ls

-- A run of ValidateDisplay is a run of CreateComposition on the layers with their types cleared, and
-- then the assignment of the types.
pub validate_display_run :
    {K : Type 0} (kernel : Kernel K) (platform : Platform) (d d' : Display K) (e : Error)
    (num_types num_requests : ℕ)
    → validate_display kernel platform d ≡ some (e, num_types, num_requests, d')
    → let planes = length d.primary_planes + length d.overlay_planes in
      (failed : Error) × (d1 : Display K) × (create_composition kernel platform true
          (record d { layers = each_layer (set_validated_type invalid) d.layers })
        ≡ some (failed, d1))
      × (num_types ≡ (assign_types (is_failure failed) planes d1.layers).0)
      × (d'.layers ≡ (assign_types (is_failure failed) planes d1.layers).1)
      × (e ≡ (if num_types == 0 then no_error else has_changes))
unfolding validate_display
validate_display_run kernel platform d d' e num_types num_requests run =
    elim (Option-cases (
      create_composition kernel platform true
        (record d { layers = each_layer (set_validated_type invalid) d.layers }))) [
          | inl c ↦ absurd (ground arith)
          | inr ((failed, d1), c) ↦ (failed, d1, c, ground arith, ground arith, ground arith)
        ]

-- After ValidateDisplay, on a display with at least one plane, the layers validated as Device are at
-- most as many as the planes, and one fewer when any layer is validated as Client, so that a plane
-- is left for the client target; and `*num_types` counts the layers validated as Client.
pub validate_display_fit :
    {K : Type 0} (kernel : Kernel K) (platform : Platform) (d d' : Display K) (e : Error)
    (num_types num_requests : ℕ)
    → 0 < length d.primary_planes + length d.overlay_planes
    → length d.primary_planes + length d.overlay_planes < 2 ^ 64
    → validate_display kernel platform d ≡ some (e, num_types, num_requests, d')
    → (devices d'.layers + min 1 num_types ≤ length d.primary_planes + length d.overlay_planes)
      × (num_types ≡ clients d'.layers)
unfolding populate_drm_layer
validate_display_fit kernel platform d d' e num_types num_requests h k run =
    let planes = length d.primary_planes + length d.overlay_planes in
    let (failed, d1, made, n, l, _) =
      validate_display_run kernel platform d d' e num_types num_requests run in
    let none_yet : devices d1.layers ≡ 0 =
      count-create_composition (λ x. is_device x.validated_type) (λ x. refl) kernel platform true
        (record d { layers = each_layer (set_validated_type invalid) d.layers }) made
      ∙ devices-cleared d.layers in
    let fit = assign_types_fit (is_failure failed) planes d1.layers none_yet h k in
    (
      omega (arith, fit, n, ap devices l),
      n ∙ assign_types_counts (is_failure failed) planes d1.layers ∙ sym (ap clients l),
    )
