-- ===== src/Hwc/Kept.antt =====
-- A property of displays that all calls keep but for those that make or destroy a layer, as a property
-- of what SurfaceFlinger does.
use drm_hwcomposer.Base.{
  ℕ, ◌+◌, ◌≤◌, refl, Option, none, some, arith, if◌then◌else◌, holds-if, holds-option, holds-known,
}
use drm_hwcomposer.Kernel.{Kernel}
use drm_hwcomposer.Connector.{Connector}
use drm_hwcomposer.Display.Layer.{HwcLayer, accept_type_change}
use drm_hwcomposer.Display.State.{
  Display, change_layer, create_layer, destroy_layer, accept_display_changes,
}
use drm_hwcomposer.Display.Compose.{present_display}
use drm_hwcomposer.Display.Validate.{validate_display}
use drm_hwcomposer.Display.Switch.{set_active_config, set_power_mode}
use drm_hwcomposer.Display.Kept.{
  Keeps, Same, Same-refl, change_layer-handles, each_layer-handles, get_release_fences-handles,
}
use drm_hwcomposer.Display.Calls.{
  set_active_config-Keeps, set_power_mode-Keeps, KeepsPresented, present_display-Keeps,
  KeepsValidated, validate_display-Keeps,
}
use drm_hwcomposer.Hwc.Calls.{
  HwcDisplay, Surroundings, DisplayCall, accept_changes, new_layer, drop_layer, active_config,
  changed_types, client_target_support, color_modes, display_attribute, display_configs,
  display_name, display_requests, display_type, doze_support, hdr_capabilities, release_fences,
  present, choose_config, client_target, choose_color_mode, color_transform, output_buffer,
  power_mode, vsync_enabled, validate, Answer, call_display, own_connector, get_display_configs,
}
use drm_hwcomposer.Hwc.Sequence.{made, Answered, Invariant}

-- A property by the number of layers made, which depends on a display's handles, its planes and its
-- planner alone.
pub record IsCounted {K : Type 0} (Q : ℕ → Display K → Type 0) : Type 0 where
  pub by_same : (n : ℕ) (d d' : Display K) → Same d d' → Q n d → Q (0 + n) d'
  pub up : (m n : ℕ) (d : Display K) → m ≤ n → Q m d → Q n d
  pub by_create : (n : ℕ) (d : Display K) → Q n d → Q (1 + n) (create_layer d).2
  pub by_destroy : (n h : ℕ) (d : Display K) → Q n d → Q (0 + n) (destroy_layer h d).1

module _ {K : Type 0} (kernel : Kernel K) (w : Surroundings K) (Q : ℕ → Display K → Type 0)
    (counted : IsCounted Q) where
  abbrev pub Counted : ℕ → Option (Answer × HwcDisplay K) → Type 0
  Counted n = Answered (λ answer. Unit) (λ h. Q n h.display)

  -- A call that leaves the handles as they are.
  kept_by :
      (n : ℕ) (h : HwcDisplay K)
      → Q n h.display
      → (d : Display K) → Same h.display d
      → Unit {0} × Q (0 + n) d
  kept_by n h p d k = (tt, counted.by_same n h.display d k p)

  get_display_configs-Counted :
      (m : Option ℕ) (n : ℕ) (h : HwcDisplay K) (conn : Connector)
      → Q n h.display
      → Counted (0 + n) (some (get_display_configs kernel w m h conn))
  unfolding get_display_configs
  get_display_configs-Counted none n h conn p =
      kept_by n h p _ ((refl, refl), (refl, refl, refl, refl))
  get_display_configs-Counted (some m) n h conn p = kept_by n h p _ (Same-refl h.display)

  pub call_display-Counted :
      (c : DisplayCall) (n : ℕ) (h : HwcDisplay K)
      → Q n h.display
      → Counted (made c + n) (call_display kernel w c h)
  unfolding call_display accept_display_changes
  call_display-Counted accept_changes n h p =
      kept_by n h p _
        ((each_layer-handles accept_type_change h.display.layers, refl), (refl, refl, refl, refl))
  call_display-Counted new_layer n h p = (tt, counted.by_create n h.display p)
  call_display-Counted (drop_layer layer) n h p = (tt, counted.by_destroy n layer h.display p)
  call_display-Counted active_config n h p =
      holds-option (Counted (0 + n)) (own_connector h) _ tt
        (λ conn. kept_by n h p _ (Same-refl h.display))
  call_display-Counted (changed_types m) n h p = kept_by n h p _ (Same-refl h.display)
  call_display-Counted (client_target_support width height dataspace) n h p =
      kept_by n h p _ (Same-refl h.display)
  call_display-Counted (color_modes m) n h p = kept_by n h p _ (Same-refl h.display)
  call_display-Counted (display_attribute config a) n h p =
      holds-option (Counted (0 + n)) (own_connector h) _ tt
        (λ conn. kept_by n h p _ (Same-refl h.display))
  call_display-Counted (display_configs m) n h p =
      holds-option (Counted (0 + n)) (own_connector h) _ tt
        (λ conn. get_display_configs-Counted m n h conn p)
  call_display-Counted (display_name m) n h p =
      holds-option (Counted (0 + n)) (own_connector h) _ tt
        (λ conn. kept_by n h p _ (Same-refl h.display))
  call_display-Counted display_requests n h p = kept_by n h p _ (Same-refl h.display)
  call_display-Counted display_type n h p = kept_by n h p _ (Same-refl h.display)
  call_display-Counted doze_support n h p = kept_by n h p _ (Same-refl h.display)
  call_display-Counted hdr_capabilities n h p = kept_by n h p _ (Same-refl h.display)
  call_display-Counted (release_fences m) n h p =
      kept_by n h p _
        ((get_release_fences-handles m h.display.layers, refl), (refl, refl, refl, refl))
  call_display-Counted present n h p =
      holds-known (KeepsPresented kernel h.display w.platform) (Counted (0 + n))
        (present_display kernel w.platform h.display) _
        (present_display-Keeps kernel h.display w.platform h.display (Same-refl h.display)) tt
        (λ r k. kept_by n h p r.2 k)
  call_display-Counted (choose_config config) n h p =
      holds-known (Keeps h.display) (Counted (0 + n))
        (if h.has_connector then set_active_config kernel config h.display else none) _
        (holds-if (Keeps h.display) h.has_connector
          (set_active_config-Keeps kernel h.display config h.display (Same-refl h.display)) tt)
        tt (λ r k. kept_by n h p r.1 k)
  call_display-Counted (client_target target fence dataspace) n h p =
      kept_by n h p _ ((refl, refl), (refl, refl, refl, refl))
  call_display-Counted (choose_color_mode mode) n h p =
      kept_by n h p _ ((refl, refl), (refl, refl, refl, refl))
  call_display-Counted color_transform n h p = kept_by n h p _ (Same-refl h.display)
  call_display-Counted output_buffer n h p = kept_by n h p _ (Same-refl h.display)
  call_display-Counted (power_mode mode) n h p =
      holds-known (Keeps h.display) (Counted (0 + n)) (set_power_mode kernel mode h.display) _
        (set_power_mode-Keeps kernel h.display mode h.display (Same-refl h.display)) tt
        (λ r k. kept_by n h p r.1 k)
  call_display-Counted (vsync_enabled enabled) n h p = kept_by n h p _ (Same-refl h.display)
  call_display-Counted validate n h p =
      holds-known (KeepsValidated kernel h.display w.platform) (Counted (0 + n))
        (validate_display kernel w.platform h.display) _
        (validate_display-Keeps kernel h.display w.platform h.display (Same-refl h.display)) tt
        (λ r k. kept_by n h p r.3 k)

  pub with_layer-kept :
      (layer : ℕ) (f : HwcLayer → HwcLayer) (n : ℕ) (d : Display K)
      → Q n d
      → Q n (record d { layers = change_layer layer f d.layers })
  with_layer-kept layer f n d p = counted.up (0 + n) n _ (omega arith) (
      counted.by_same n d _
        ((change_layer-handles layer f d.layers, refl), (refl, refl, refl, refl)) p)

  -- It holds of every display through all calls.
  abbrev pub of_counted : Invariant kernel w
  of_counted = record {
    Says = λ answer. Unit;
    Holds = λ n h. Q n h.display;
    up = λ m n h l p. counted.up m n h.display l p;
    by_display = call_display-Counted;
    by_layer = λ layer f n h p. with_layer-kept layer f n h.display p;
    by_callback = λ function n h p. p;
    of_layer = λ c l. tt;
    of_device = λ c s. tt;
  }
