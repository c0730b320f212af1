-- ===== src/Hwc/Missing.antt =====
-- Calls on layers: a handle that names no layer, and what a call leaves of the other layers.
use drm_hwcomposer.Base.{
  ℕ, ◌≡◌, refl, ◌⊎◌, inl, inr, Bool, true, false, ◌&&◌, Option, none, some, List, [], ◌∷◌, arith,
  Option-cases, if◌then◌else◌, ◌==◌, ==_iff,
}
use drm_hwcomposer.Kernel.{Kernel}
use drm_hwcomposer.Display.Layer.{HwcLayer}
use drm_hwcomposer.Display.State.{Layers, find_layer, change_layer}
use drm_hwcomposer.Hwc.Calls.{HwcDisplay, Surroundings, LayerCall, call_layer}
use drm_hwcomposer.Hwc.State.{Hwc, returns, throws, find_display, put_display, with_layer}
use drm_hwcomposer.Hwc.Root.{layer_hook}

find_layer-change :
    (h m : ℕ) (f : HwcLayer → HwcLayer) (layers : Layers) (l : HwcLayer)
    → find_layer h layers ≡ some l
    → find_layer m (change_layer h f layers) ≡ (if m == h then some (f l) else find_layer m layers)
unfolding find_layer change_layer
find_layer-change h m f [] l e = ground arith
find_layer-change h m f ((k, x) ∷ rest) l e = ground (arith, find_layer-change h m f rest l)

find_display-put :
    {K : Type 0} (h g : ℕ) (d d' : HwcDisplay K) (displays : List (ℕ × HwcDisplay K))
    → find_display h displays ≡ some d
    → find_display g (put_display h d' displays)
      ≡ (if g == h then some d' else find_display g displays)
unfolding find_display put_display
find_display-put h g d d' [] e = ground arith
find_display-put h g d d' ((k, x) ∷ rest) e = ground (arith, find_display-put h g d d' rest)

abbrev layer_in : {K : Type 0} → ℕ → Option (HwcDisplay K) → Option HwcLayer
layer_in m o = elim o [ none ↦ none | some d ↦ find_layer m d.display.layers ]

-- The layer that two handles name.
abbrev pub layer_of : {K : Type 0} → ℕ → ℕ → Hwc K → Option HwcLayer
layer_of h m s = layer_in m (find_display h s.displays)

layer_in-if :
    {K : Type 0} (a b : Bool) (m : ℕ) (d d' : HwcDisplay K) (o : Option (HwcDisplay K))
    (x : HwcLayer)
    → (a ≡ true → o ≡ some d)
    → find_layer m d'.display.layers ≡ (if b then some x else find_layer m d.display.layers)
    → layer_in m (if a then some d' else o) ≡ (if a && b then some x else layer_in m o)
layer_in-if false b m d d' o x found e = refl
layer_in-if true b m d d' o x found e = rw (found refl, layer_in) e

layer_of-put :
    {K : Type 0} (h g layer m : ℕ) (f : HwcLayer → HwcLayer) (s : Hwc K) (d : HwcDisplay K)
    (l : HwcLayer)
    → find_display h s.displays ≡ some d
    → find_layer layer d.display.layers ≡ some l
    → layer_of g m (record s { displays = put_display h (with_layer layer f d) s.displays })
      ≡ (if (g == h) && (m == layer) then some (f l) else layer_of g m s)
layer_of-put h g layer m f s d l e e' =
    rw (find_display-put h g d (with_layer layer f d) s.displays e, layer_of)
      (layer_in-if (g == h) (m == layer) m d (with_layer layer f d) (find_display g s.displays)
        (f l) (λ t. cc ((==_iff g h).0 t)) (find_layer-change layer m f d.display.layers l e'))

module _ {K : Type 0} (kernel : Kernel K) (w : Surroundings K) where
  -- A layer call throws where its handles name no layer.  Otherwise it returns what the method
  -- answers on the layer that they name, leaves there what the method makes of that layer, and every
  -- other layer of every display as it was.
  pub layer_hook_lem :
      (h layer : ℕ) (c : LayerCall) (s : Hwc K) (g m : ℕ)
      → ((layer_of h layer s ≡ none) × (layer_hook kernel w h layer c s ≡ throws))
        ⊎ ((l : HwcLayer) × (s' : Hwc K) × (layer_of h layer s ≡ some l)
            × (layer_hook kernel w h layer c s ≡ returns ((call_layer w.platform.dup c l).0, s'))
            × (layer_of g m s' ≡ (
                if (g == h) && (m == layer)
                then some (call_layer w.platform.dup c l).1
                else layer_of g m s)))
  unfolding layer_hook
  layer_hook_lem h layer c s g m = elim (Option-cases (find_display h s.displays)) [
    | inl e ↦ inl (rw (e, layer_of) refl, rw (e, layer_hook) refl)
    | inr (d, e) ↦ elim (Option-cases (find_layer layer d.display.layers)) [
      | inl e' ↦ inl (rw (e, layer_of) e', rw (e, layer_hook) (rw e' refl))
      | inr (l, e') ↦
          let f : HwcLayer → HwcLayer = λ x. (call_layer w.platform.dup c x).1 in
          inr (
            l,
            record s { displays = put_display h (with_layer layer f d) s.displays },
            rw (e, layer_of) e',
            rw (e, layer_hook) (rw e' refl),
            layer_of-put h g layer m f s d l e e',
          )
    ]
  ]
