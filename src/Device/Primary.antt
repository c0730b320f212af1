-- ===== src/Device/Primary.antt =====
-- Which connector DrmDevice::Init makes the primary display.
use drm_hwcomposer.Base.{
  ◌≡◌, ◌⊎◌, inl, inr, true, false, none, some, List, arith, All, find?, find?-holds, find?-fails,
  Option-cases, Bool-cases,
}
use drm_hwcomposer.Connector.{Connector, connected, internal, external}
use drm_hwcomposer.Device.Init.{find_primary, is_candidate, is_internal_candidate}

internal-parts :
    (c : Connector) → is_internal_candidate c ≡ true → (c.state ≡ connected) × (internal c ≡ true)
unfolding is_internal_candidate
internal-parts c h = (ground arith, ground arith)

candidate-parts :
    (c : Connector)
    → is_candidate c ≡ true
    → (c.state ≡ connected) × ((internal c ≡ true) ⊎ (external c ≡ true))
unfolding is_candidate
candidate-parts c h =
    (ground arith, elim (Bool-cases (internal c)) [ inl e ↦ inl e | inr e ↦ inr (ground arith) ])

external-kind :
    (c : Connector) (conns : List Connector)
    → (internal c ≡ true) ⊎ (external c ≡ true)
    → All (λ x. is_internal_candidate x ≡ false) conns
    → (internal c ≡ true) ⊎ ((external c ≡ true) × All (λ x. is_internal_candidate x ≡ false) conns)
external-kind c conns (inl e) a = inl e
external-kind c conns (inr e) a = inr (e, a)

-- The connector that becomes the primary display is connected, and internal or external; if it is
-- not internal then no internal connector is connected. When there is no primary display, no
-- connector of these kinds is connected.
pub find_primary_lem :
    (conns : List Connector)
    → ((c : Connector) × (find_primary conns ≡ some c)
        × (c.state ≡ connected)
        × ((internal c ≡ true)
            ⊎ ((external c ≡ true) × All (λ x. is_internal_candidate x ≡ false) conns)))
      ⊎ ((find_primary conns ≡ none) × All (λ x. is_candidate x ≡ false) conns)
unfolding find_primary
find_primary_lem conns = elim (Option-cases (find? is_internal_candidate conns)) [
  | inr (c, e) ↦
      let parts = internal-parts c (find?-holds {0} is_internal_candidate conns c e) in
      inl (c, rw (e, find_primary), parts.0, inl parts.1)
  | inl e ↦ elim (Option-cases (find? is_candidate conns)) [
    | inr (c, e') ↦
        let parts = candidate-parts c (find?-holds {0} is_candidate conns c e') in
        let best = external-kind c conns parts.1 (find?-fails {0} is_internal_candidate conns e) in
        inl (c, rw (e, find_primary) e', parts.0, best)
    | inl e' ↦ inr (rw (e, find_primary) e', find?-fails {0} is_candidate conns e')
  ]
]
