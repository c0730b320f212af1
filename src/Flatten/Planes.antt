-- ===== src/Flatten/Planes.antt =====
-- The planes of a flattened frame: which one shows it, and which are disabled.
use drm_hwcomposer.Base.{
  ℕ, ◌+◌, ◌≤◌, ◌≡◌, ◌≢◌, refl, Bool, true, false, not, ◌&&◌, Option, none, some, List, [], ◌∷◌,
  ◌==◌, arith, ap, Bool-cases, inl, inr, if◌then◌else◌, count_if-append,
}
use native.Mathlib.Decide.{ℕ_discrete}
use drm_hwcomposer.Resources.{Plane, Crtc, get_crtc_supported}
use drm_hwcomposer.Planner.Stages.{holds, shows, shows_plane}
use drm_hwcomposer.Composition.{Composition, add_plane_disable, add_plane_composition, disable_all}
use drm_hwcomposer.Composition.Accounting.{is_primary, disable_all-shows}
use drm_hwcomposer.Flatten.State.{squashed_plane}
use drm_hwcomposer.Flatten.Serial.{squash_serial}
use drm_hwcomposer.Flatten.Concurrent.{squash_concurrent}

-- The planes that the CRTC supports, of those that pass a test.
abbrev pub supported_with : Crtc → (Plane → Bool) → Plane → Bool
supported_with crtc q p = get_crtc_supported crtc p && q p

abbrev pub is_supported_primary : Crtc → Plane → Bool
is_supported_primary crtc = supported_with crtc is_primary

abbrev pub found_with : (Plane → Bool) → Option Plane → ℕ
found_with q none = 0
found_with q (some p) = if q p then 1 else 0

add_plane_disable-shows :
    (q : Plane → Bool) (p : Plane) (c : Composition)
    → shows q (add_plane_disable p c).composition_planes
      ≡ shows q c.composition_planes + holds q (p ∷ [])
unfolding disable_all
add_plane_disable-shows q p c = disable_all-shows q (p ∷ []) c

squash_serial-shows :
    (q : Plane → Bool) (crtc : Crtc) (found : Option Plane) (ps : List Plane) (c : Composition)
    → let done = squash_serial crtc found ps c in
      found_with q done.0 + shows q done.1.composition_planes
      ≡ found_with q found + shows q c.composition_planes + holds (supported_with crtc q) ps
unfolding squash_serial
squash_serial-shows q crtc found [] c = omega arith
squash_serial-shows q crtc none (p ∷ ps) c = ground (
  arith,
  squash_serial-shows q crtc none ps c,
  squash_serial-shows q crtc (some p) ps c,
  squash_serial-shows q crtc none ps (add_plane_disable p c),
  add_plane_disable-shows q p c,
)
squash_serial-shows q crtc (some f) (p ∷ ps) c = ground (
  arith,
  squash_serial-shows q crtc (some f) ps c,
  squash_serial-shows q crtc (some f) ps (add_plane_disable p c),
  add_plane_disable-shows q p c,
)

shows-squashed :
    (q : Plane → Bool) (crtc : Crtc) (o : Option Plane) (c : Composition)
    → shows q (add_plane_composition (squashed_plane crtc o) c).1.composition_planes
      ≡ shows q c.composition_planes + found_with q o
unfolding add_plane_composition
shows-squashed q crtc none c =
    count_if-append {0} (shows_plane q) c.composition_planes (squashed_plane crtc none ∷ [])
shows-squashed q crtc (some p) c =
    count_if-append {0} (shows_plane q) c.composition_planes (squashed_plane crtc (some p) ∷ [])

-- The composition that FlattenSerial makes of an empty one names each plane that the CRTC supports
-- exactly as often as the device has it, and no other plane: this is counted for the planes of any
-- given property, such as a given id.
pub squash_serial-once :
    (q : Plane → Bool) (crtc : Crtc) (ps : List Plane) (c : Composition)
    → c.composition_planes ≡ []
    → let done = squash_serial crtc none ps c in
      shows q (add_plane_composition (squashed_plane crtc done.0) done.1).1.composition_planes
      ≡ holds (supported_with crtc q) ps
squash_serial-once q crtc ps c e =
    let done = squash_serial crtc none ps c in
    omega (
      arith,
      shows-squashed q crtc done.0 done.1,
      squash_serial-shows q crtc none ps c,
      ap (shows q) e,
    )

-- A found plane is kept where no other primary plane is supported.
squash-same :
    (crtc : Crtc) (found : Option Plane) (ps : List Plane) (c : Composition)
    → found_with (λ p. true) found + holds (is_supported_primary crtc) ps ≤ 1
    → squash_concurrent crtc found ps c ≡ squash_serial crtc found ps c
unfolding squash_concurrent squash_serial
squash-same crtc found [] c h = refl
squash-same crtc none (p ∷ ps) c h = ground (
  arith,
  squash-same crtc none ps c,
  squash-same crtc (some p) ps c,
  squash-same crtc none ps (add_plane_disable p c),
)
squash-same crtc (some f) (p ∷ ps) c h =
    ground
      (arith, squash-same crtc (some f) ps c, squash-same crtc (some f) ps (add_plane_disable p c))

-- The planes without each primary plane that the CRTC supports and behind which it supports another.
abbrev pub last_primary : Crtc → List Plane → List Plane
last_primary crtc [] = []
last_primary crtc (p ∷ ps) =
    let rest = last_primary crtc ps in
    if is_supported_primary crtc p && not (holds (is_supported_primary crtc) ps == 0)
    then rest
    else p ∷ rest

last_primary-none :
    (crtc : Crtc) (ps : List Plane)
    → holds (is_supported_primary crtc) ps ≡ 0
    → last_primary crtc ps ≡ ps
last_primary-none crtc [] h = refl
last_primary-none crtc (p ∷ ps) h = ground (arith, last_primary-none crtc ps)

-- A plane that was found is forgotten where another one follows.
squash_concurrent-forgets :
    (crtc : Crtc) (f : Plane) (ps : List Plane) (c : Composition)
    → holds (is_supported_primary crtc) ps ≢ 0
    → squash_concurrent crtc (some f) ps c ≡ squash_concurrent crtc none ps c
unfolding squash_concurrent
squash_concurrent-forgets crtc f [] c h = absurd (omega arith)
squash_concurrent-forgets crtc f (p ∷ ps) c h = ground (
  arith,
  squash_concurrent-forgets crtc f ps c,
  squash_concurrent-forgets crtc f ps (add_plane_disable p c),
)

-- The claim for one list of planes.
abbrev Agree : Crtc → List Plane → Composition → Type 0
Agree crtc ps c =
    squash_concurrent crtc none ps c ≡ squash_serial crtc none (last_primary crtc ps) c

nothing : (crtc : Crtc) (c : Composition) → Agree crtc [] c
unfolding squash_concurrent squash_serial
nothing crtc c = refl

module _ (crtc : Crtc) (p : Plane) (ps : List Plane) (c : Composition) where
  Agree-unsupported : get_crtc_supported crtc p ≡ false → Agree crtc ps c → Agree crtc (p ∷ ps) c
  unfolding squash_concurrent squash_serial
  Agree-unsupported no_support ih = rw (no_support, last_primary) (rw no_support ih)

  Agree-disabled :
      get_crtc_supported crtc p ≡ true
      → is_primary p ≡ false
      → Agree crtc ps (add_plane_disable p c)
      → Agree crtc (p ∷ ps) c
  unfolding squash_concurrent squash_serial
  Agree-disabled support other ih = ground arith

  Agree-last :
      is_supported_primary crtc p ≡ true
      → holds (is_supported_primary crtc) ps ≡ 0
      → Agree crtc (p ∷ ps) c
  unfolding squash_concurrent squash_serial
  Agree-last primary last =
      ground (arith, last_primary-none crtc ps, squash-same crtc (some p) ps c)

  Agree-earlier :
      is_supported_primary crtc p ≡ true
      → holds (is_supported_primary crtc) ps ≢ 0
      → Agree crtc ps c
      → Agree crtc (p ∷ ps) c
  unfolding squash_concurrent squash_serial
  Agree-earlier primary more ih = ground (arith, squash_concurrent-forgets crtc p ps c)

-- FlattenConcurrent chooses and disables the planes that FlattenSerial would choose and disable if
-- the device had, of the primary planes that the CRTC supports, only the last: the earlier ones are
-- neither shown nor disabled.
pub squash_concurrent-serial :
    (crtc : Crtc) (ps : List Plane) (c : Composition)
    → squash_concurrent crtc none ps c ≡ squash_serial crtc none (last_primary crtc ps) c
squash_concurrent-serial crtc [] c = nothing crtc c
squash_concurrent-serial crtc (p ∷ ps) c = elim (Bool-cases (get_crtc_supported crtc p)) [
  | inr no_support ↦ Agree-unsupported crtc p ps c no_support (squash_concurrent-serial crtc ps c)
  | inl support ↦ elim (Bool-cases (is_primary p)) [
    | inr other ↦
        Agree-disabled crtc p ps c support other
          (squash_concurrent-serial crtc ps (add_plane_disable p c))
    | inl primary ↦ elim (ℕ_discrete (holds (is_supported_primary crtc) ps) 0) [
      | yes last ↦ Agree-last crtc p ps c (ground arith) last
      | no more ↦ Agree-earlier crtc p ps c (ground arith) more (squash_concurrent-serial crtc ps c)
    ]
  ]
]
