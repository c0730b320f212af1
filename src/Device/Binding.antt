-- ===== src/Device/Binding.antt =====
-- Connecting a display never takes a CRTC from another display: CreateDisplayPipe.
use drm_hwcomposer.Base.{
  ℕ, ◌≡◌, refl, sym, ap, ◌∙◌, ◌⊎◌, inl, inr, true, some, List, [], ◌∷◌, ℤ, arith, Option-cases,
}
use drm_hwcomposer.Resources.{Crtc, can_bind}
use drm_hwcomposer.Connector.{Connector}
use drm_hwcomposer.Device.State.{Encoder, Device, get_crtc, get_encoder, set_crtc_display}
use drm_hwcomposer.Device.Pipe.{
  bind, crtc_can_bind, try_crtcs, try_encoder_for_display, try_encoder, try_encoders,
  create_display_pipe,
}

-- The CRTCs before and after: each is the same object, and is bound to the display that it was bound
-- to, or, where it was free or the display's own, to `display`.
abbrev pub KeepsCrtcs : ℤ → List Crtc → List Crtc → Type 0
KeepsCrtcs display [] [] = Unit
KeepsCrtcs display [] (c' ∷ cs') = ⊥
KeepsCrtcs display (c ∷ cs) [] = ⊥
KeepsCrtcs display (c ∷ cs) (c' ∷ cs') =
    (c'.id ≡ c.id)
    × ((c'.display ≡ c.display) ⊎ ((can_bind c.display display ≡ true) × (c'.display ≡ display)))
    × KeepsCrtcs display cs cs'

KeepsCrtcs-refl : (display : ℤ) (cs : List Crtc) → KeepsCrtcs display cs cs
KeepsCrtcs-refl display [] = tt
KeepsCrtcs-refl display (c ∷ cs) = (refl, inl refl, KeepsCrtcs-refl display cs)

-- What KeepsCrtcs says of the bindings of one CRTC, twice in a row.
binding_trans :
    (display a b c : ℤ)
    → (b ≡ a) ⊎ ((can_bind a display ≡ true) × (b ≡ display))
    → (c ≡ b) ⊎ ((can_bind b display ≡ true) × (c ≡ display))
    → (c ≡ a) ⊎ ((can_bind a display ≡ true) × (c ≡ display))
binding_trans display a b c (inl e) (inl e') = inl (e' ∙ e)
binding_trans display a b c (inl e) (inr (f, e')) =
    inr (ap (λ x. can_bind x display) (sym e) ∙ f, e')
binding_trans display a b c (inr (f, e)) (inl e') = inr (f, e' ∙ e)
binding_trans display a b c (inr (f, e)) (inr (f', e')) = inr (f, e')

KeepsCrtcs-trans :
    (display : ℤ) (xs ys zs : List Crtc)
    → KeepsCrtcs display xs ys
    → KeepsCrtcs display ys zs
    → KeepsCrtcs display xs zs
KeepsCrtcs-trans display [] [] zs h k = k
KeepsCrtcs-trans display [] (y ∷ ys) zs h k = absurd h
KeepsCrtcs-trans display (x ∷ xs) [] zs h k = absurd h
KeepsCrtcs-trans display (x ∷ xs) (y ∷ ys) [] h k = absurd k
KeepsCrtcs-trans display (x ∷ xs) (y ∷ ys) (z ∷ zs) (e, u, r) (e', v, r') = (
  e' ∙ e,
  binding_trans display x.display y.display z.display u v,
  KeepsCrtcs-trans display xs ys zs r r',
)

set_crtc_display-KeepsCrtcs :
    (display : ℤ) (id : ℕ) (cs : List Crtc) (c : Crtc)
    → get_crtc id cs ≡ some c
    → can_bind c.display display ≡ true
    → KeepsCrtcs display cs (set_crtc_display id display cs)
unfolding get_crtc set_crtc_display
set_crtc_display-KeepsCrtcs display id [] c h k = tt
set_crtc_display-KeepsCrtcs display id (x ∷ xs) c h k =
    ground (arith, KeepsCrtcs-refl display xs, set_crtc_display-KeepsCrtcs display id xs c)

bind-KeepsCrtcs :
    (display : ℤ) (crtc enc : ℕ) (d : Device)
    → crtc_can_bind d display crtc ≡ true
    → KeepsCrtcs display d.crtcs (bind display crtc enc d).crtcs
unfolding bind crtc_can_bind
bind-KeepsCrtcs display crtc enc d h = elim (Option-cases (get_crtc crtc d.crtcs)) [
  | inl e ↦ absurd (ground arith)
  | inr (c, e) ↦ set_crtc_display-KeepsCrtcs display crtc d.crtcs c e (ground arith)
]

try_crtcs-KeepsCrtcs :
    (display : ℤ) (enc : Encoder) (crtcs : List ℕ) (d : Device)
    → KeepsCrtcs display d.crtcs (try_crtcs display enc crtcs d).1.crtcs
unfolding try_crtcs
try_crtcs-KeepsCrtcs display enc [] d = KeepsCrtcs-refl display d.crtcs
try_crtcs-KeepsCrtcs display enc (crtc ∷ rest) d =
    ground (arith, try_crtcs-KeepsCrtcs display enc rest d, bind-KeepsCrtcs display crtc enc.id d)

try_encoder_for_display-KeepsCrtcs :
    (display : ℤ) (enc : Encoder) (d : Device)
    → KeepsCrtcs display d.crtcs (try_encoder_for_display display enc d).1.crtcs
unfolding try_encoder_for_display
try_encoder_for_display-KeepsCrtcs display enc d = elim (Option-cases enc.crtc) [
  | inl e ↦ rw (e, try_encoder_for_display) (try_crtcs-KeepsCrtcs display enc enc.possible_crtcs d)
  | inr (crtc, e) ↦
      rw (e, try_encoder_for_display)
        (ground (
          arith,
          try_crtcs-KeepsCrtcs display enc enc.possible_crtcs d,
          bind-KeepsCrtcs display crtc enc.id d,
        ))
]

try_encoder-KeepsCrtcs :
    (display : ℤ) (enc : ℕ) (d : Device)
    → KeepsCrtcs display d.crtcs (try_encoder display enc d).1.crtcs
unfolding try_encoder
try_encoder-KeepsCrtcs display enc d = elim (Option-cases (get_encoder enc d.encoders)) [
  | inl e ↦ rw (e, try_encoder) (KeepsCrtcs-refl display d.crtcs)
  | inr (x, e) ↦ rw (e, try_encoder) (try_encoder_for_display-KeepsCrtcs display x d)
]

try_encoders-KeepsCrtcs :
    (conn : Connector) (encs : List ℕ) (d : Device)
    → KeepsCrtcs conn.display d.crtcs (try_encoders conn encs d).1.crtcs
unfolding try_encoders
try_encoders-KeepsCrtcs conn [] d = ground (arith, KeepsCrtcs-refl conn.display d.crtcs)
try_encoders-KeepsCrtcs conn (enc ∷ rest) d =
    let tried = try_encoder conn.display enc d in
    let here = try_encoder-KeepsCrtcs conn.display enc d in
    let all =
      KeepsCrtcs-trans conn.display d.crtcs tried.1.crtcs (try_encoders conn rest tried.1).1.crtcs
        here (try_encoders-KeepsCrtcs conn rest tried.1) in
    ground (arith, here, all)

-- Whatever CreateDisplayPipe returns, it leaves every CRTC bound to the display that it was bound
-- to, but for those that were free or the connector's display's own, which it may bind to the
-- connector's display.
pub create_display_pipe-KeepsCrtcs :
    (conn : Connector) (d : Device)
    → KeepsCrtcs conn.display d.crtcs (create_display_pipe conn d).1.crtcs
unfolding create_display_pipe
create_display_pipe-KeepsCrtcs conn d = elim (Option-cases conn.encoder) [
  | inl e ↦ rw (e, create_display_pipe) (try_encoders-KeepsCrtcs conn conn.possible_encoders d)
  | inr (enc, e) ↦
      let tried = try_encoder conn.display enc d in
      let here = try_encoder-KeepsCrtcs conn.display enc d in
      let all =
        KeepsCrtcs-trans conn.display d.crtcs tried.1.crtcs
          (try_encoders conn conn.possible_encoders tried.1).1.crtcs here
          (try_encoders-KeepsCrtcs conn conn.possible_encoders tried.1) in
      rw (e, create_display_pipe) (ground (arith, here, all))
]
