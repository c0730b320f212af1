-- ===== src/Display/Taken.antt =====
-- What CreateComposition does to the acquire fences of the layers, in a test too.
use drm_hwcomposer.Base.{
  ℕ, ◌≡◌, refl, sym, inl, inr, Bool, true, false, none, some, List, [], ◌∷◌, neg, arith, All,
  Option-cases, Bool-cases, ◌==ℤ◌, is_set, null,
}
use drm_hwcomposer.Kernel.{Kernel}
use drm_hwcomposer.Composition.{Composition}
use drm_hwcomposer.Layer.{DrmLayer, Importer}
use drm_hwcomposer.Display.Layer.{Error, HwcLayer, populate_drm_layer}
use drm_hwcomposer.Display.State.{Layers, Display, change_layer, find_layer}
use drm_hwcomposer.Display.Zmap.{Entry, frame_entries}
use drm_hwcomposer.Display.Compose.{
  Platform, give_fence, give_fences, import_entries, commit_composition, add_fence_to_retire_fence,
  create_composition, plan_composition,
}

abbrev pub take_fence : HwcLayer → HwcLayer
take_fence l = (populate_drm_layer l).1

-- The layer of a handle, if there is one, has no acquire fence.
abbrev pub fenceless : ℕ → Layers → Bool
fenceless h layers = elim (find_layer h layers) [ none ↦ true | some l ↦ l.acquire_fence ==ℤ neg 1 ]

fenceless-change_eq :
    (h : ℕ) (layers : Layers) → fenceless h (change_layer h take_fence layers) ≡ true
unfolding change_layer find_layer populate_drm_layer
fenceless-change_eq h [] = refl
fenceless-change_eq h ((k, m) ∷ rest) = ground (arith, fenceless-change_eq h rest)

fenceless-change :
    (h k : ℕ) (layers : Layers)
    → fenceless h layers ≡ true
    → fenceless h (change_layer k take_fence layers) ≡ true
unfolding change_layer find_layer populate_drm_layer
fenceless-change h k [] f = refl
fenceless-change h k ((x, m) ∷ rest) f = ground (arith, fenceless-change h k rest)

module _ {K : Type 0} where
  -- The layer of an entry has no acquire fence any more.
  abbrev pub taken : Entry → Display K → Bool
  taken e d = elim e.handle [
    | none ↦ d.client_layer.acquire_fence ==ℤ neg 1
    | some h ↦ fenceless h d.layers
  ]

  give_fence-taken : (e : Entry) (d : Display K) → taken e (give_fence e d) ≡ true
  unfolding give_fence populate_drm_layer
  give_fence-taken e d = elim (Option-cases e.handle) [
    | inl c ↦ rw (c, give_fence)
    | inr (h, c) ↦ rw (c, give_fence) (fenceless-change_eq h d.layers)
  ]

  give_fence-keeps :
      (e f : Entry) (d : Display K) → taken f d ≡ true → taken f (give_fence e d) ≡ true
  unfolding give_fence populate_drm_layer
  give_fence-keeps e f d t = elim (Option-cases e.handle) [
    | inl c ↦ elim (Option-cases f.handle) [
      | inl c' ↦ rw (c', c, give_fence)
      | inr (h, c') ↦ ground arith
    ]
    | inr (k, c) ↦ elim (Option-cases f.handle) [
      | inl c' ↦ ground arith
      | inr (h, c') ↦ rw (c', c, give_fence) (fenceless-change h k d.layers (ground (arith, t)))
    ]
  ]

  give_fences-keeps :
      (es : List Entry) (f : Entry) (d : Display K)
      → taken f d ≡ true
      → taken f (give_fences es d) ≡ true
  unfolding give_fences
  give_fences-keeps [] f d t = t
  give_fences-keeps (e ∷ es) f d t =
      give_fences-keeps es f (give_fence e d) (give_fence-keeps e f d t)

  give_fences-taken :
      (es : List Entry) (d : Display K) → All (λ e. taken e (give_fences es d) ≡ true) es
  unfolding give_fences
  give_fences-taken [] d = tt
  give_fences-taken (e ∷ es) d = (
    give_fences-keeps es e (give_fence e d) (give_fence-taken e d),
    give_fences-taken es (give_fence e d),
  )

  All-moved :
      (es : List Entry) (d d' : Display K)
      → d'.layers ≡ d.layers
      → d'.client_layer ≡ d.client_layer
      → All (λ e. taken e d ≡ true) es
      → All (λ e. taken e d' ≡ true) es
  All-moved [] d d' l c a = tt
  All-moved (e ∷ es) d d' l c a = (ground (arith, a.0, l, c), All-moved es d d' l c a.1)

  All-nothing :
      (importer : Importer) (es : List Entry) (d : Display K)
      → null es ≡ true
      → All (λ e. taken e d ≡ true) (import_entries importer es).2
  unfolding import_entries
  All-nothing importer [] d n = tt
  All-nothing importer (e ∷ es) d n = absurd (ground arith)

  module _ (kernel : Kernel K) (platform : Platform) where
    commit_composition-layers :
        (test : Bool) (c : Composition) (d : Display K) (e : Error) (d' : Display K)
        → commit_composition kernel platform test c d ≡ some (e, d')
        → (d'.layers ≡ d.layers) × (d'.client_layer ≡ d.client_layer)
    unfolding commit_composition add_fence_to_retire_fence
    commit_composition-layers true c d e d' h = (ground arith, ground arith)
    commit_composition-layers false c d e d' h = (ground arith, ground arith)

    plan_composition-layers :
        (test : Bool) (ls : List DrmLayer) (d : Display K) (e : Error) (d' : Display K)
        → plan_composition kernel platform test ls d ≡ some (e, d')
        → (d'.layers ≡ d.layers) × (d'.client_layer ≡ d.client_layer)
    unfolding plan_composition
    plan_composition-layers test ls d e d' h =
        grind (arith, λ (c : Composition). commit_composition-layers test c d e d')

    -- Whether it tests or commits, CreateComposition takes the acquire fence away from every layer
    -- of the frame that its loop of imports reaches: none of them has one afterwards.
    pub create_composition-takes :
        (test : Bool) (d d' : Display K) (e : Error)
        → create_composition kernel platform test d ≡ some (e, d')
        → All
            (λ entry. taken entry d' ≡ true)
            (import_entries platform.importer (frame_entries test d.layers d.client_layer)).2
    unfolding create_composition
    create_composition-takes test d d' e run =
        let entries = frame_entries test d.layers d.client_layer in
        let imported = import_entries platform.importer entries in
        let given = give_fences imported.2 d in
        elim (Bool-cases (null entries)) [
          | inl n ↦ All-nothing platform.importer entries d' n
          | inr n ↦ elim (Bool-cases (is_set imported.0)) [
            | inl b ↦
                let same : (given.layers ≡ d'.layers) × (given.client_layer ≡ d'.client_layer) =
                  (ground arith, ground arith) in
                All-moved imported.2 given d' (sym same.0) (sym same.1)
                  (give_fences-taken imported.2 d)
            | inr b ↦
                let kept = plan_composition-layers test imported.1 given e d' (ground arith) in
                All-moved imported.2 given d' kept.0 kept.1 (give_fences-taken imported.2 d)
          ]
        ]
