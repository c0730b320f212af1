-- ===== src/Hwc/Fences.antt =====
-- The retire fence through all calls of SurfaceFlinger.
use drm_hwcomposer.Base.{
  ℕ, ◌≡◌, ◌⊎◌, inl, inr, Bool, true, false, if◌then◌else◌, Option, none, some, neg, arith,
  Option-cases, holds-option,
}
use drm_hwcomposer.Mode.{Mode}
use drm_hwcomposer.Kernel.{Kernel}
use drm_hwcomposer.Connector.{Connector}
use drm_hwcomposer.Composition.{set_display_mode, set_dpms_mode, dpms_on, dpms_off}
use drm_hwcomposer.Display.Query.{find_mode}
use drm_hwcomposer.Compositor.Apply.{apply_composition}
use drm_hwcomposer.Display.Layer.{Error, invalid, set_validated_type, HwcLayer}
use drm_hwcomposer.Display.State.{
  Display, each_layer, create_layer, destroy_layer, accept_display_changes,
}
use drm_hwcomposer.Display.Compose.{create_composition, present_display}
use drm_hwcomposer.Display.Validate.{validate_display}
use drm_hwcomposer.Display.Switch.{
  PowerMode, off, on, doze, doze_suspend, fresh_composition, switch_to, set_dpms, set_active_config,
  set_power_mode,
}
use drm_hwcomposer.Display.Present.{NoFence, NoFence-create, present_display-NoFence}
use drm_hwcomposer.Hwc.Calls.{
  HwcDisplay, Surroundings, DisplayCall, accept_changes, new_layer, drop_layer, active_config,
  changed_types, client_target_support, color_modes, display_attribute, display_configs,
  display_name, display_requests, display_type, doze_support, hdr_capabilities, release_fences,
  present, choose_config, client_target, choose_color_mode, color_transform, output_buffer,
  power_mode, vsync_enabled, validate, Answer, retire_fence, call_display, own_connector,
  get_display_configs, get_color_modes, answer_name, LayerCall, attribute, buffer, call_layer,
}
use drm_hwcomposer.Hwc.State.{Hwc}
use drm_hwcomposer.Hwc.Root.{
  DeviceCall, new_virtual_display, drop_virtual_display, dump, virtual_display_count, add_callback,
  call_device,
}
use drm_hwcomposer.Hwc.Sequence.{Answered, Invariant}

guarded :
    {A : Type 0} (b : Bool) (o : Option A) (x : A) → (if b then o else none) ≡ some x → o ≡ some x
guarded true o x e = e
guarded false o x e = absurd (ground arith)

module _ {K : Type 0} (kernel : Kernel K) where
  NoFence-switch_to :
      (mode : Mode) (d d' : Display K) (e : Error)
      → NoFence d
      → switch_to kernel mode d ≡ some (e, d')
      → NoFence d'
  unfolding switch_to
  NoFence-switch_to mode d d' e h run =
      elim (Option-cases (
        apply_composition kernel (set_display_mode mode (fresh_composition kernel d)).1
          d.compositor)) [ inl n ↦ ground arith | inr ((ret, s), n) ↦ ground arith ]

  pub NoFence-set_active_config :
      (config : ℕ) (d d' : Display K) (e : Error)
      → NoFence d
      → set_active_config kernel config d ≡ some (e, d')
      → NoFence d'
  unfolding set_active_config
  NoFence-set_active_config config d d' e h run = elim (Option-cases d.compositor.connector) [
    | inl n ↦ ground arith
    | inr (conn, n) ↦ elim (Option-cases (find_mode config conn)) [
      | inl m ↦ ground arith
      | inr (mode, m) ↦ NoFence-switch_to mode d d' e h (ground arith)
    ]
  ]

  NoFence-set_dpms :
      (value : ℕ) (d d' : Display K) (e : Error)
      → NoFence d
      → set_dpms kernel value d ≡ some (e, d')
      → NoFence d'
  unfolding set_dpms
  NoFence-set_dpms value d d' e h run =
      elim (Option-cases (
        apply_composition kernel (set_dpms_mode value (fresh_composition kernel d)).1
          d.compositor)) [ inl n ↦ ground arith | inr ((ret, s), n) ↦ ground arith ]

  NoFence-set_power_mode :
      (mode : PowerMode) (d d' : Display K) (e : Error)
      → NoFence d
      → set_power_mode kernel mode d ≡ some (e, d')
      → NoFence d'
  unfolding set_power_mode
  NoFence-set_power_mode off d d' e h run = NoFence-set_dpms dpms_off d d' e h run
  NoFence-set_power_mode on d d' e h run = NoFence-set_dpms dpms_on d d' e h run
  NoFence-set_power_mode doze d d' e h run = ground arith
  NoFence-set_power_mode doze_suspend d d' e h run = ground arith

  module _ (w : Surroundings K) where
    NoFence-validate_display :
        (d d' : Display K) (e : Error) (num_types num_requests : ℕ)
        → NoFence d
        → validate_display kernel w.platform d ≡ some (e, num_types, num_requests, d')
        → NoFence d'
    unfolding validate_display
    NoFence-validate_display d d' e num_types num_requests h run =
        let cleared = record d { layers = each_layer (set_validated_type invalid) d.layers } in
        elim (Option-cases (create_composition kernel w.platform true cleared)) [
          | inl n ↦ ground arith
          | inr ((e', d1), n) ↦
              ground (arith, NoFence-create kernel w.platform true cleared d1 e' h n)
        ]

    -- The answer hands out no retire fence.
    abbrev pub NoRetireFence : Answer → Type 0
    NoRetireFence (retire_fence e f) = (f ≡ none) ⊎ (f ≡ some (neg 1))
    NoRetireFence _ = Unit

    abbrev pub Kept : Option (Answer × HwcDisplay K) → Type 0
    Kept = Answered NoRetireFence (λ h. NoFence h.display)

    get_color_modes-none : (m : Option ℕ) → NoRetireFence (get_color_modes m)
    unfolding get_color_modes
    get_color_modes-none none = tt
    get_color_modes-none (some m) = tt

    answer_name-none :
        (m : Option ℕ) (conn : Connector) → NoRetireFence (answer_name kernel w m conn)
    unfolding answer_name
    answer_name-none none conn = tt
    answer_name-none (some m) conn = tt

    NoFence-get_display_configs :
        (m : Option ℕ) (h : HwcDisplay K) (conn : Connector)
        → NoFence h.display
        → Kept (some (get_display_configs kernel w m h conn))
    unfolding get_display_configs
    NoFence-get_display_configs none h conn n = (tt, n)
    NoFence-get_display_configs (some m) h conn n = (tt, n)

    pub call_display-NoFence :
        (c : DisplayCall) (h : HwcDisplay K) → NoFence h.display → Kept (call_display kernel w c h)
    unfolding call_display create_layer destroy_layer accept_display_changes
    call_display-NoFence accept_changes h n = (tt, n)
    call_display-NoFence new_layer h n = (tt, n)
    call_display-NoFence (drop_layer layer) h n = (tt, n)
    call_display-NoFence active_config h n =
        holds-option Kept (own_connector h) _ tt (λ conn. (tt, n))
    call_display-NoFence (changed_types m) h n = (tt, n)
    call_display-NoFence (client_target_support width height dataspace) h n = (tt, n)
    call_display-NoFence (color_modes m) h n = (get_color_modes-none m, n)
    call_display-NoFence (display_attribute config a) h n =
        holds-option Kept (own_connector h) _ tt (λ conn. (tt, n))
    call_display-NoFence (display_configs m) h n =
        holds-option Kept (own_connector h) _ tt (λ conn. NoFence-get_display_configs m h conn n)
    call_display-NoFence (display_name m) h n =
        holds-option Kept (own_connector h) _ tt (λ conn. (answer_name-none m conn, n))
    call_display-NoFence display_requests h n = (tt, n)
    call_display-NoFence display_type h n = (tt, n)
    call_display-NoFence doze_support h n = (tt, n)
    call_display-NoFence hdr_capabilities h n = (tt, n)
    call_display-NoFence (release_fences m) h n = (tt, n)
    call_display-NoFence present h n =
        elim (Option-cases (present_display kernel w.platform h.display)) [
          | inl e ↦ rw (e, Answered) tt
          | inr ((err, fence, d), e) ↦
              rw (e, Answered) (present_display-NoFence kernel w.platform h.display d err fence n e)
        ]
    call_display-NoFence (choose_config config) h n =
        elim (Option-cases
          (if h.has_connector then set_active_config kernel config h.display else none)) [
            | inl e ↦ rw (e, Answered) tt
            | inr ((err, d), e) ↦
                let run = guarded h.has_connector _ (err, d) e in
                rw (e, Answered) (tt, NoFence-set_active_config config h.display d err n run)
          ]
    call_display-NoFence (client_target target fence dataspace) h n = (tt, n)
    call_display-NoFence (choose_color_mode mode) h n = (tt, n)
    call_display-NoFence color_transform h n = (tt, n)
    call_display-NoFence output_buffer h n = (tt, n)
    call_display-NoFence (power_mode mode) h n =
        elim (Option-cases (set_power_mode kernel mode h.display)) [
          | inl e ↦ rw (e, Answered) tt
          | inr ((err, d), e) ↦
              rw (e, Answered) (tt, NoFence-set_power_mode mode h.display d err n e)
        ]
    call_display-NoFence (vsync_enabled enabled) h n = (tt, n)
    call_display-NoFence validate h n =
        elim (Option-cases (validate_display kernel w.platform h.display)) [
          | inl e ↦ rw (e, Answered) tt
          | inr ((err, a, b, d), e) ↦
              rw (e, Answered) (tt, NoFence-validate_display h.display d err a b n e)
        ]

    pub call_layer-none :
        (c : LayerCall) (l : HwcLayer) → NoRetireFence (call_layer w.platform.dup c l).0
    unfolding call_layer
    call_layer-none (attribute a) l = tt
    call_layer-none (buffer handle fence) l = tt

    pub call_device-none : (c : DeviceCall) (s : Hwc K) → NoRetireFence (call_device c s).0
    unfolding call_device
    call_device-none new_virtual_display s = tt
    call_device-none drop_virtual_display s = tt
    call_device-none dump s = tt
    call_device-none virtual_display_count s = tt
    call_device-none (add_callback c) s = tt

    -- No display holds a retire fence, whatever calls are made.
    abbrev pub quiet : Invariant kernel w
    quiet = record {
      Says = NoRetireFence;
      Holds = λ n h. NoFence h.display;
      up = λ m n h l q. q;
      by_display = λ c n h q. call_display-NoFence c h q;
      by_layer = λ layer f n h q. q;
      by_callback = λ function n h q. q;
      of_layer = call_layer-none;
      of_device = call_device-none;
    }
