-- ===== src/Display/Validate.antt =====
-- HwcDisplay::ValidateDisplay: which layers get a plane, and which SurfaceFlinger shall compose.
use drm_hwcomposer.Base.{
  ℕ, suc, ◌+◌, ◌-◌, ◌%◌, ◌^◌, Bool, true, false, ◌&&◌, Option, none, some, List, [], ◌∷◌,
  if◌then◌else◌, ◌==◌, ltb, length,
}
use drm_hwcomposer.Kernel.{Kernel}
use drm_hwcomposer.Display.Layer.{
  Error, no_error, has_changes, HwcLayer, invalid, client, device, is_device, set_validated_type,
}
use drm_hwcomposer.Display.State.{Layers, Display, change_layer, each_layer}
use drm_hwcomposer.Display.Zmap.{Entry, device_entries}
use drm_hwcomposer.Display.Compose.{Platform, create_composition}

-- `if (avail_planes < layers_.size()) avail_planes--;` on a size_t.
unfoldable pub available_planes : ℕ → ℕ → ℕ
available_planes planes layers =
    if ltb planes layers then (planes + 2 ^ 64 - 1) % 2 ^ 64 else planes

-- The entries of the map are marked from the top, while planes are available.
unfoldable pub mark_devices : ℕ → List Entry → Layers → Layers
unfolding change_layer set_validated_type
mark_devices avail [] layers = layers
mark_devices avail (e ∷ es) layers =
    let marked : Layers = elim e.handle [
      | none ↦ layers
      | some h ↦ change_layer h (set_validated_type device) layers
    ] in
    let rest = mark_devices (avail - 1) es marked in if avail == 0 then layers else rest

-- The last loop: whatever got no plane is composed by the client.
abbrev pub keeps_plane : HwcLayer → Bool
keeps_plane l = is_device l.sf_type && is_device l.validated_type

abbrev pub settle_layer : HwcLayer → HwcLayer
settle_layer l = if keeps_plane l then l else set_validated_type client l

unfoldable pub settle_types : Layers → ℕ × Layers
unfolding set_validated_type
settle_types [] = (0, [])
settle_types ((h, l) ∷ rest) =
    let more = settle_types rest in
    (if keeps_plane l then more.0 else suc more.0, (h, settle_layer l) ∷ more.1)

abbrev pub is_failure : Error → Bool
is_failure no_error = false
is_failure _ = true

-- What ValidateDisplay does when the test of a composition has given its verdict.
unfoldable pub assign_types : Bool → ℕ → Layers → ℕ × Layers
unfolding available_planes mark_devices settle_types
assign_types comp_failed planes layers =
    let avail = available_planes planes (length layers) in
    let marked =
      if comp_failed then layers else mark_devices avail (device_entries layers []) layers in
    settle_types marked

module _ {K : Type 0} (kernel : Kernel K) (platform : Platform) where
  -- The result is the error, `*num_types`, `*num_requests` and the display.
  unfoldable pub validate_display : Display K → Option (Error × ℕ × ℕ × Display K)
  unfolding set_validated_type assign_types
  validate_display d =
      let planes = length d.primary_planes + length d.overlay_planes in
      let cleared = record d { layers = each_layer (set_validated_type invalid) d.layers } in
      elim (create_composition kernel platform true cleared) [
        | none ↦ none
        | some (e, d1) ↦
            let (num_types, layers) = assign_types (is_failure e) planes d1.layers in
            some (
              if num_types == 0 then no_error else has_changes,
              num_types,
              0,
              record d1 { layers = layers },
            )
      ]
