-- ===== src/Display/Counts.antt =====
-- How many layers have a property, and how the operations of a display keep that number.
use drm_hwcomposer.Base.{
  ℕ, ◌+◌, ◌-◌, ◌≤◌, ◌≡◌, refl, ◌∙◌, Bool, true, false, some, List, [], ◌∷◌, length, count_if, arith,
  Option-cases, inl, inr,
}
use drm_hwcomposer.Kernel.{Kernel}
use drm_hwcomposer.Layer.{DrmLayer}
use drm_hwcomposer.Composition.{Composition}
use drm_hwcomposer.Display.Layer.{
  Error, HwcLayer, device, is_device, is_client, set_validated_type, populate_drm_layer,
}
use drm_hwcomposer.Display.State.{Layers, Display, change_layer}
use drm_hwcomposer.Display.Zmap.{Entry, frame_entries}
use drm_hwcomposer.Display.Compose.{
  Platform, give_fence, give_fences, import_entries, add_fence_to_retire_fence, commit_composition,
  plan_composition, create_composition,
}
use drm_hwcomposer.Display.Validate.{mark_devices, settle_types}

abbrev pub devices : Layers → ℕ
devices = count_if (λ l. is_device l.1.validated_type)

abbrev pub clients : Layers → ℕ
clients = count_if (λ l. is_client l.1.validated_type)

abbrev pub sf_clients : Layers → ℕ
sf_clients = count_if (λ l. is_client l.1.sf_type)

-- A test of a layer that does not look at its acquire fence.
abbrev pub FenceBlind : (HwcLayer → Bool) → Type 0
FenceBlind q = (l : HwcLayer) → q (populate_drm_layer l).1 ≡ q l

abbrev pub count : (HwcLayer → Bool) → Layers → ℕ
count q = count_if (λ l. q l.1)

count-change_layer :
    (q : HwcLayer → Bool) (h : ℕ) (f : HwcLayer → HwcLayer) (layers : Layers)
    → ((l : HwcLayer) → q (f l) ≡ q l)
    → count q (change_layer h f layers) ≡ count q layers
unfolding change_layer
count-change_layer q h f [] same = refl
count-change_layer q h f ((k, m) ∷ rest) same =
    ground (arith, same m, count-change_layer q h f rest same)

module _ {K : Type 0} (q : HwcLayer → Bool) (blind : FenceBlind q) where
  count-give_fence :
      (e : Entry) (d : Display K) → count q (give_fence e d).layers ≡ count q d.layers
  unfolding give_fence
  count-give_fence e d = elim (Option-cases e.handle) [
    | inl c ↦ rw (c, give_fence)
    | inr (h, c) ↦
        rw (c, give_fence) (count-change_layer q h (λ l. (populate_drm_layer l).1) d.layers blind)
  ]

  count-give_fences :
      (es : List Entry) (d : Display K) → count q (give_fences es d).layers ≡ count q d.layers
  unfolding give_fences
  count-give_fences [] d = refl
  count-give_fences (e ∷ es) d = count-give_fences es (give_fence e d) ∙ count-give_fence e d

  module _ (kernel : Kernel K) (platform : Platform) where
    count-commit_composition :
        (test : Bool) (c : Composition) (d : Display K) (e : Error) (d' : Display K)
        → commit_composition kernel platform test c d ≡ some (e, d')
        → count q d'.layers ≡ count q d.layers
    unfolding commit_composition add_fence_to_retire_fence
    count-commit_composition true c d e d' h = ground arith
    count-commit_composition false c d e d' h = ground arith

    count-plan_composition :
        (test : Bool) (ls : List DrmLayer) (d : Display K) {e : Error} {d' : Display K}
        → plan_composition kernel platform test ls d ≡ some (e, d')
        → count q d'.layers ≡ count q d.layers
    unfolding plan_composition
    count-plan_composition test ls d {e} {d'} h =
        grind (arith, λ (c : Composition). count-commit_composition test c d e d')

    -- A composition leaves the layers as they are, but for their acquire fences.
    pub count-create_composition :
        (test : Bool) (d : Display K) {e : Error} {d' : Display K}
        → create_composition kernel platform test d ≡ some (e, d')
        → count q d'.layers ≡ count q d.layers
    unfolding create_composition
    count-create_composition test d h =
        let entries = frame_entries test d.layers d.client_layer in
        let imported = import_entries platform.importer entries in
        ground (
          arith,
          count-give_fences imported.2 d,
          count-plan_composition test imported.1 (give_fences imported.2 d),
        )

-- Each marked layer takes one of the planes that are available.
devices-change_layer :
    (h : ℕ) (layers : Layers)
    → devices (change_layer h (set_validated_type device) layers) ≤ devices layers + 1
unfolding change_layer set_validated_type
devices-change_layer h [] = omega arith
devices-change_layer h ((k, m) ∷ rest) = ground (arith, devices-change_layer h rest)

length-change_layer :
    (h : ℕ) (f : HwcLayer → HwcLayer) (layers : Layers)
    → length (change_layer h f layers) ≡ length layers
unfolding change_layer
length-change_layer h f [] = refl
length-change_layer h f ((k, m) ∷ rest) = ground (arith, length-change_layer h f rest)

pub mark_devices_bound :
    (avail : ℕ) (es : List Entry) (layers : Layers)
    → (devices (mark_devices avail es layers) ≤ devices layers + avail)
      × (length (mark_devices avail es layers) ≡ length layers)
unfolding mark_devices
mark_devices_bound avail [] layers = (omega arith, refl)
mark_devices_bound avail (e ∷ es) layers = elim (Option-cases e.handle) [
  | inl c ↦ rw (c, mark_devices) (ground (arith, mark_devices_bound (avail - 1) es layers))
  | inr (h, c) ↦
      rw (c, mark_devices)
        (ground (
          arith,
          mark_devices_bound (avail - 1) es (change_layer h (set_validated_type device) layers),
          devices-change_layer h layers,
          length-change_layer h (set_validated_type device) layers,
        ))
]

-- The last loop of ValidateDisplay counts the layers that it gives to the client.
pub settle_types_counts :
    (layers : Layers)
    → ((settle_types layers).0 ≡ clients (settle_types layers).1)
      × (devices (settle_types layers).1 ≤ devices layers)
      × (devices (settle_types layers).1 + clients (settle_types layers).1 ≡ length layers)
unfolding settle_types set_validated_type
settle_types_counts [] = omega arith
settle_types_counts ((h, l) ∷ rest) = ground (arith, settle_types_counts rest)
