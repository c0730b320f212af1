-- ===== src/Display/Zmap.antt =====
-- The maps from a z-order to a layer that CreateComposition and ValidateDisplay build.
use drm_hwcomposer.Base.{
  ℕ, ◌+◌, ◌-◌, ◌%◌, ◌^◌, Bool, true, false, Option, none, some, List, [], ◌∷◌, if◌then◌else◌, ltb,
  min,
}
use drm_hwcomposer.Display.Layer.{HwcLayer, CompositionType, client, device, is_device}
use drm_hwcomposer.Display.State.{Layers}

-- An entry: the z-order, the handle of the layer (`none` is the client layer) and the layer as the
-- pointer shows it.
pub record Entry : Type 0 where
  pub z : ℕ
  pub handle : Option ℕ
  pub layer : HwcLayer

-- `emplace` into a map that is ordered by `before`: an equivalent key that is there stays.
unfoldable pub emplace_entry : (ℕ → ℕ → Bool) → Entry → List Entry → List Entry
emplace_entry before e [] = e ∷ []
emplace_entry before e (f ∷ rest) =
    let more = emplace_entry before e rest in
    if before e.z f.z then e ∷ f ∷ rest else if before f.z e.z then f ∷ more else f ∷ rest

-- `std::greater<int>` on keys of uint32_t: the numbers from 2^31 on are negative as ints.
abbrev pub int_greater : ℕ → ℕ → Bool
int_greater a b = ltb ((b + 2 ^ 31) % 2 ^ 32) ((a + 2 ^ 31) % 2 ^ 32)

abbrev pub layer_entry : ℕ × HwcLayer → Entry
layer_entry (h, l) = record { z = l.z_order; handle = some h; layer = l }

-- The first loop of CreateComposition.
pub record Collected : Type 0 where
  pub z_map : List Entry
  pub use_client_layer : Bool
  pub client_z_order : ℕ

abbrev pub composed_type : Bool → HwcLayer → CompositionType
composed_type test l = if test then l.sf_type else l.validated_type

unfoldable pub collect_layer : CompositionType → ℕ × HwcLayer → Collected → Collected
unfolding emplace_entry
collect_layer device l c = record c { z_map = emplace_entry ltb (layer_entry l) c.z_map }
collect_layer client l c = record c {
  use_client_layer = true;
  client_z_order = min c.client_z_order l.1.z_order;
}
collect_layer _ l c = c

unfoldable pub collect : Bool → Layers → Collected → Collected
unfolding collect_layer
collect test [] c = c
collect test (l ∷ ls) c = collect test ls (collect_layer (composed_type test l.1) l c)

abbrev pub nothing_collected : Collected
nothing_collected = record { z_map = []; use_client_layer = false; client_z_order = 2 ^ 32 - 1 }

-- The layers of the frame in z-order, the client layer at the z-order of the lowest client layer.
unfoldable pub frame_entries : Bool → Layers → HwcLayer → List Entry
unfolding collect emplace_entry
frame_entries test layers client_layer =
    let c = collect test layers nothing_collected in
    if c.use_client_layer
    then emplace_entry ltb (record { z = c.client_z_order; handle = none; layer = client_layer })
        c.z_map
    else c.z_map

-- The map of ValidateDisplay: the layers that ask for a plane, the topmost first.
unfoldable pub device_entries : Layers → List Entry → List Entry
unfolding emplace_entry
device_entries [] m = m
device_entries (l ∷ ls) m =
    device_entries ls
      (if is_device l.1.sf_type then emplace_entry int_greater (layer_entry l) m else m)
