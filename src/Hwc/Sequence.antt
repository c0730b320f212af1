-- ===== src/Hwc/Sequence.antt =====
-- What holds of the displays through all calls that SurfaceFlinger makes, one behind the other.
use drm_hwcomposer.Base.{
  ℕ, ◌+◌, ◌≤◌, ◌≡◌, refl, ◌⊎◌, inl, inr, Option, none, some, List, [], ◌∷◌, arith, All,
  holds-option, holds-known,
}
use drm_hwcomposer.Kernel.{Kernel}
use drm_hwcomposer.Display.Layer.{HwcLayer}
use drm_hwcomposer.Display.State.{find_layer}
use drm_hwcomposer.Hwc.Calls.{
  HwcDisplay, Surroundings, DisplayCall, new_layer, LayerCall, Answer, call_display, call_layer,
  register_vsync_callback,
}
use drm_hwcomposer.Hwc.State.{
  Hwc, HwcCallback, Callback, hotplug, refresh, vsync, other_callback, Outcome, returns, throws,
  faults, find_display, put_display, with_layer,
}
use drm_hwcomposer.Hwc.Root.{
  listen, Call, on_display, on_layer, on_device, display_hook, layer_hook, register, DeviceCall,
  new_virtual_display, drop_virtual_display, dump, virtual_display_count, add_callback, call_device,
  call, run,
}

pub Outcome-cases :
    {A : Type 0} (o : Outcome A) → ((x : A) × (o ≡ returns x)) ⊎ ((o ≡ throws) ⊎ (o ≡ faults))
Outcome-cases (returns x) = inl (x, refl)
Outcome-cases throws = inr (inl refl)
Outcome-cases faults = inr (inr refl)

-- The layers that a call makes, and those that a sequence makes.
abbrev pub made : DisplayCall → ℕ
made new_layer = 1
made _ = 0

abbrev pub made_by : Call → ℕ
made_by (on_display h c) = made c
made_by (on_layer h layer c) = 0
made_by (on_device c) = 0

abbrev pub layers_made : List Call → ℕ
layers_made [] = 0
layers_made (c ∷ cs) = made_by c + layers_made cs

-- A call's answer and display, by what shall hold of them.
abbrev pub Answered :
    {K : Type 0}
    → (Answer → Type 0)
    → (HwcDisplay K → Type 0)
    → Option (Answer × HwcDisplay K)
    → Type 0
Answered Says Holds none = Unit
Answered Says Holds (some (answer, h)) = Says answer × Holds h

-- What holds of an answer, and of a display when so many layers have been made, with its laws: the
-- methods of a display and of a layer keep it.
pub record Invariant {K : Type 0} (kernel : Kernel K) (w : Surroundings K) : Type 1 where
  pub Says : Answer → Type 0
  pub Holds : ℕ → HwcDisplay K → Type 0
  pub up : (m n : ℕ) (h : HwcDisplay K) → m ≤ n → Holds m h → Holds n h
  pub by_display :
      (c : DisplayCall) (n : ℕ) (h : HwcDisplay K)
      → Holds n h
      → Answered Says (Holds (made c + n)) (call_display kernel w c h)
  pub by_layer :
      (layer : ℕ) (f : HwcLayer → HwcLayer) (n : ℕ) (h : HwcDisplay K)
      → Holds n h
      → Holds n (with_layer layer f h)
  pub by_callback :
      (function n : ℕ) (h : HwcDisplay K) → Holds n h → Holds n (register_vsync_callback function h)
  pub of_layer : (c : LayerCall) (l : HwcLayer) → Says (call_layer w.platform.dup c l).0
  pub of_device : (c : DeviceCall) (s : Hwc K) → Says (call_device c s).0

module _ {K : Type 0} (kernel : Kernel K) (w : Surroundings K) (i : Invariant kernel w) where
  -- It holds of every display of the device.
  abbrev pub Everywhere : ℕ → List (ℕ × HwcDisplay K) → Type 0
  Everywhere n ds = All (λ d. i.Holds n d.1) ds

  Everywhere-up :
      (m n : ℕ) (ds : List (ℕ × HwcDisplay K)) → m ≤ n → Everywhere m ds → Everywhere n ds
  Everywhere-up m n [] l q = tt
  Everywhere-up m n ((k, d) ∷ ds) l q = (i.up m n d l q.0, Everywhere-up m n ds l q.1)

  abbrev Found : ℕ → Option (HwcDisplay K) → Type 0
  Found n none = Unit
  Found n (some d) = i.Holds n d

  find_display-Found :
      (n h : ℕ) (ds : List (ℕ × HwcDisplay K)) → Everywhere n ds → Found n (find_display h ds)
  unfolding find_display
  find_display-Found n h [] q = tt
  find_display-Found n h ((k, x) ∷ ds) q = ground (arith, find_display-Found n h ds q.1)

  put_display-Everywhere :
      (n h : ℕ) (ds : List (ℕ × HwcDisplay K)) (d : HwcDisplay K)
      → Everywhere n ds
      → i.Holds n d
      → Everywhere n (put_display h d ds)
  unfolding put_display
  put_display-Everywhere n h [] d q p = tt
  put_display-Everywhere n h ((k, x) ∷ ds) d q p =
      ground (arith, put_display-Everywhere n h ds d q.1 p)

  listen-Everywhere :
      (f n : ℕ) (ds : List (ℕ × HwcDisplay K)) → Everywhere n ds → Everywhere n (listen f ds)
  unfolding listen
  listen-Everywhere f n [] q = tt
  listen-Everywhere f n ((k, d) ∷ ds) q = (i.by_callback f n d q.0, listen-Everywhere f n ds q.1)

  abbrev Kept : ℕ → Outcome (Answer × Hwc K) → Type 0
  Kept n (returns (answer, s)) = i.Says answer × Everywhere n s.displays
  Kept n throws = Unit
  Kept n faults = Unit

  display_hook-Kept :
      (n h : ℕ) (c : DisplayCall) (s : Hwc K)
      → Everywhere n s.displays
      → Kept (made c + n) (display_hook kernel w h c s)
  unfolding display_hook
  display_hook-Kept n h c s q =
      holds-known (Found n) (Kept (made c + n)) (find_display h s.displays) _
        (find_display-Found n h s.displays q) tt
        (λ d p.
          holds-known (Answered i.Says (i.Holds (made c + n))) (Kept (made c + n))
            (call_display kernel w c d) _ (i.by_display c n d p) tt
            (λ r k. (
              k.0,
              put_display-Everywhere (made c + n) h s.displays r.1
                  (Everywhere-up n (made c + n) s.displays (omega arith) q) k.1,
            )))

  layer_hook-Kept :
      (n h layer : ℕ) (c : LayerCall) (s : Hwc K)
      → Everywhere n s.displays
      → Kept n (layer_hook kernel w h layer c s)
  unfolding layer_hook
  layer_hook-Kept n h layer c s q =
      let f : HwcLayer → HwcLayer = λ m. (call_layer w.platform.dup c m).1 in
      holds-known (Found n) (Kept n) (find_display h s.displays) _
        (find_display-Found n h s.displays q) tt
        (λ d p. holds-option (Kept n) (find_layer layer d.display.layers) _ tt (λ l. (
          i.of_layer c l,
          put_display-Everywhere n h s.displays (with_layer layer f d) q (i.by_layer layer f n d p),
        )))

  register-Everywhere :
      (c : HwcCallback) (n : ℕ) (s : Hwc K) (x : Callback)
      → c.callback ≡ x
      → Everywhere n s.displays
      → Everywhere n (register c s).1.displays
  unfolding register
  register-Everywhere c n s hotplug e q = rw e q
  register-Everywhere c n s refresh e q = rw e q
  register-Everywhere c n s vsync e q = rw e (listen-Everywhere c.function n s.displays q)
  register-Everywhere c n s (other_callback x) e q = rw e q

  call_device-Everywhere :
      (c : DeviceCall) (n : ℕ) (s : Hwc K)
      → Everywhere n s.displays
      → Everywhere n (call_device c s).1.displays
  unfolding call_device
  call_device-Everywhere new_virtual_display n s q = q
  call_device-Everywhere drop_virtual_display n s q = q
  call_device-Everywhere dump n s q = q
  call_device-Everywhere virtual_display_count n s q = q
  call_device-Everywhere (add_callback c) n s q = register-Everywhere c n s c.callback refl q

  call-Kept :
      (c : Call) (n : ℕ) (s : Hwc K)
      → Everywhere n s.displays
      → Kept (made_by c + n) (call kernel w c s)
  unfolding call
  call-Kept (on_display h c) n s q = display_hook-Kept n h c s q
  call-Kept (on_layer h layer c) n s q =
      layer_hook-Kept (0 + n) h layer c s (Everywhere-up n (0 + n) s.displays (omega arith) q)
  call-Kept (on_device c) n s q = (
    i.of_device c s,
    call_device-Everywhere c (0 + n) s (Everywhere-up n (0 + n) s.displays (omega arith) q),
  )

  pub run-keeps :
      (cs : List Call) (n : ℕ) (s : Hwc K)
      → Everywhere n s.displays
      → All i.Says (run kernel w cs s).0
        × Everywhere (layers_made cs + n) (run kernel w cs s).1.displays
  unfolding run
  run-keeps [] n s q = (tt, Everywhere-up n (0 + n) s.displays (omega arith) q)
  run-keeps (c ∷ cs) n s q =
      let total = made_by c + layers_made cs + n in
      let stopped = Everywhere-up n total s.displays (omega arith) q in
      elim (Outcome-cases (call kernel w c s)) [
        | inl ((answer, s'), e) ↦
            let (says, q') = rw e at (call-Kept c n s q) in
            let (rest, last) = run-keeps cs (made_by c + n) s' q' in
            rw (e, run) ((says, rest), Everywhere-up _ total _ (omega arith) last)
        | inr (inl e) ↦ rw (e, run) (tt, stopped)
        | inr (inr e) ↦ rw (e, run) (tt, stopped)
      ]
