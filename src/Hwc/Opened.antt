-- ===== src/Hwc/Opened.antt =====
-- What the device is when HookDevOpen has made it, and what follows for the calls on it.
use drm_hwcomposer.Base.{
  true, ◌∙◌, All-select, select-All, ℕ, ◌+◌, ◌≡◌, refl, inl, inr, Bool, Option, none, some, List,
  [], ◌∷◌, ℤ, pos, arith, All, All-weaken, Option-cases, holds-if, holds-option, not, is_set,
  einval, select,
}
use drm_hwcomposer.Planner.{Stage}
use drm_hwcomposer.Resources.{Plane, Crtc, get_crtc_supported}
use drm_hwcomposer.Connector.{Connector}
use drm_hwcomposer.Kernel.{Kernel}
use drm_hwcomposer.Display.Layer.{Error, no_error}
use drm_hwcomposer.Display.State.{Display}
use drm_hwcomposer.Display.Present.{NoFence}
use drm_hwcomposer.Display.Kept.{HasHandles, HasPipe, Same, Same-refl}
use drm_hwcomposer.Display.Calls.{set_active_config-Keeps}
use drm_hwcomposer.Composition.Accounting.{PoolsIsSplit}
use drm_hwcomposer.Display.Pools.{pools_of-PoolsIsSplit}
use drm_hwcomposer.Display.Shown.{display_pools}
use drm_hwcomposer.Display.Query.{count_display_configs}
use drm_hwcomposer.Display.Switch.{split_planes, set_active_config}
use drm_hwcomposer.Display.Init.{Start, init_mode, init_modes, init_display}
use drm_hwcomposer.Device.State.{Device, get_crtc_for_display}
use drm_hwcomposer.Hwc.Calls.{HwcDisplay, Surroundings}
use drm_hwcomposer.Hwc.State.{Hwc, primary, physical, Outcome, returns, throws, faults, new_display}
use drm_hwcomposer.Layer.{Importer}
use drm_hwcomposer.Manager.{init_manager, get_drm_device, get_importer}
use drm_hwcomposer.Hwc.Start.{Found, start_of, start_display, init_primary, init, hook_dev_open}
use drm_hwcomposer.Hwc.Root.{Call, run}
use drm_hwcomposer.Hwc.Sequence.{Invariant, Everywhere, layers_made, run-keeps}
use drm_hwcomposer.Hwc.Fences.{NoRetireFence, NoFence-set_active_config, quiet}

-- The CRTC supports the planes.
abbrev pub Supports : Option Crtc → List Plane → Type 0
Supports none planes = Unit
Supports (some c) planes = All (λ p. get_crtc_supported c p ≡ true) planes

module _ {K : Type 0} where
  -- The display plans with these stages, its CRTC supports its planes, and the pool of primary planes
  -- holds primary planes alone and the other none.
  abbrev pub IsFitted : List Stage → Display K → Type 0
  IsFitted stages d =
      (d.planner ≡ stages)
      × Supports d.crtc d.primary_planes
      × Supports d.crtc d.overlay_planes
      × PoolsIsSplit (display_pools d)

  pub IsFitted-Same :
      (stages : List Stage) (d d' : Display K)
      → HasPipe d d'
      → IsFitted stages d
      → IsFitted stages d'
  IsFitted-Same stages d d' k f =
      (k.1 ∙ f.0, rw (k.0, k.2) f.1, rw (k.0, k.3) f.2, rw (k.2, k.3) f.3)

module _ {K : Type 0} (kernel : Kernel K) (stages : List Stage) where
  -- A display that holds no retire fence and has no layers, nor ever had, and is fitted.
  abbrev pub Blank : Display K → Type 0
  Blank d = NoFence d × HasHandles [] 0 d × IsFitted stages d

  abbrev pub AllBlank : List (ℕ × HwcDisplay K) → Type 0
  AllBlank displays = All (λ d. Blank d.1.display) displays

  abbrev KeptStart : Option (Error × Display K) → Type 0
  KeptStart none = Unit
  KeptStart (some (e, d)) = Blank d

  Blank-Same : (d d' : Display K) → Blank d → NoFence d' → Same d d' → Blank d'
  Blank-Same d d' n f k = (f, (k.0.0 ∙ n.1.0, k.0.1 ∙ n.1.1), IsFitted-Same stages d d' k.1 n.2)

  KeptStart-set_active_config :
      (config : ℕ) (d : Display K) → Blank d → KeptStart (set_active_config kernel config d)
  KeptStart-set_active_config config d n = elim (Option-cases (set_active_config kernel config d)) [
    | inl e ↦ rw (e, KeptStart) tt
    | inr ((err, d'), e) ↦
        rw (e, KeptStart)
          (Blank-Same d d' n (NoFence-set_active_config kernel config d d' err n.0 e)
            (rw e at (set_active_config-Keeps kernel d config d (Same-refl d))))
  ]

  KeptStart-init_mode :
      (start : Start) (configs : List ℕ) (d : Display K)
      → Blank d
      → KeptStart (init_mode kernel start configs d)
  unfolding init_mode
  KeptStart-init_mode start [] d n = n
  KeptStart-init_mode start (config ∷ rest) d n =
      holds-if KeptStart (is_set start.vsync_ret) n (KeptStart-set_active_config config d n)

  KeptStart-error :
      (e : Error) (x : Option (Error × Display K)) (d : Display K)
      → KeptStart x
      → Blank d
      → KeptStart (elim e [ no_error ↦ x | other ↦ some (other, d) ])
  KeptStart-error no_error x d p n = p
  KeptStart-error _ x d p n = n

  KeptStart-init_modes :
      (start : Start) (conn : Connector) (d : Display K)
      → Blank d
      → KeptStart (init_modes kernel start conn d)
  unfolding init_modes
  KeptStart-init_modes start conn d n =
      KeptStart-error (count_display_configs start.report start.mode_id conn).0 _ _
        (KeptStart-init_mode start _ _ n) n

  KeptStart-init_display :
      (start : Start) (planes : List Plane) (c : Crtc) (d : Display K)
      → Supports (some c) planes
      → Blank d
      → KeptStart (init_display kernel start planes (some c) d)
  unfolding init_display split_planes
  KeptStart-init_display start planes c d supports n =
      let split = split_planes start.use_overlay_planes planes in
      let d1 : Display K = record d {
        primary_planes = split.0;
        overlay_planes = split.1;
        crtc = some c;
      } in
      let n1 : Blank d1 = (
        n.0,
        n.1,
        (
          n.2.0,
          All-select _ _ planes supports,
          All-select _ _ planes supports,
          (pools_of-PoolsIsSplit start.use_overlay_planes planes 0).0,
        ),
      ) in
      holds-if KeptStart (is_set start.compositor_ret) n (
        holds-option KeptStart d.compositor.connector (λ conn. init_modes kernel start conn d1) n1
          (λ conn. KeptStart-init_modes start conn d1 n1))

  -- The displays that Init leaves are blank.
  abbrev KeptInit : Outcome (Error × Hwc K) → Type 0
  KeptInit (returns (e, s)) = AllBlank s.displays
  KeptInit _ = Unit

  init_display-Blank :
      (start : Start) (planes : List Plane) (c : Crtc) (d d' : Display K) (e : Error)
      → Supports (some c) planes
      → Blank d
      → init_display kernel start planes (some c) d ≡ some (e, d')
      → Blank d'
  init_display-Blank start planes c d d' e supports n run =
      rw (run, KeptStart) at (KeptStart-init_display start planes c d supports n)

  start_display-Blank :
      (start : Start) (drm : Device) (c : Crtc) (h h' : HwcDisplay K)
      → Blank h.display
      → start_display kernel start drm c h ≡ some h'
      → Blank h'.display
  unfolding start_display
  start_display-Blank start drm c h h' n run =
      let planes = select (get_crtc_supported c) drm.planes in
      elim (Option-cases (init_display kernel start planes (some c) h.display)) [
        | inl e ↦ absurd (ground arith)
        | inr ((err, d), e) ↦ ground (
          arith,
          init_display-Blank start planes c h.display d err
              (select-All (get_crtc_supported c) drm.planes) n e,
        )
      ]

  KeptInit-started :
      (o : Option (HwcDisplay K)) (f : HwcDisplay K → Hwc K)
      → ((h' : HwcDisplay K) → o ≡ some h' → AllBlank (f h').displays)
      → KeptInit (elim o [ none ↦ faults | some h' ↦ returns (no_error, f h') ])
  KeptInit-started none f q = tt
  KeptInit-started (some h') f q = q h' refl

  KeptInit-init_primary :
      (found : Found) (drms : List (Device × Importer)) (k : K)
      → found.planner ≡ stages
      → KeptInit (init_primary kernel found drms k)
  unfolding init_primary new_display
  KeptInit-init_primary found drms k e =
      holds-option KeptInit (get_drm_device drms (pos primary)) _ tt (λ drm.
        holds-option KeptInit (get_importer drms (pos primary)) _ tt (λ importer.
          let h : HwcDisplay K = new_display drm found.planner physical k in
          let start = start_of found drms drm in
          holds-option KeptInit (get_crtc_for_display drm (pos primary)) _
            (((refl, refl), (refl, refl), (e, tt, tt, record { primaries = tt; others = tt })), tt)
            (λ c. KeptInit-started (start_display kernel start drm c h) _ (λ h' r. (
              start_display-Blank start drm c h h'
                  ((refl, refl), (refl, refl), (e, tt, tt, record { primaries = tt; others = tt }))
                  r,
              tt,
            )))))

  KeptInit-init : (found : Found) (k : K) → found.planner ≡ stages → KeptInit (init kernel found k)
  unfolding init
  KeptInit-init found k e =
      holds-option KeptInit (init_manager found.path found.gralloc) _ tt
        (λ made. holds-if KeptInit (is_set made.0) tt (KeptInit-init_primary found made.1.drms k e))

  abbrev pub KeptOpen : Outcome (ℤ × Option (Hwc K)) → Type 0
  KeptOpen (returns (ret, some s)) = AllBlank s.displays
  KeptOpen _ = Unit

  KeptOpen-init :
      (o : Outcome (Error × Hwc K))
      → KeptInit o
      → KeptOpen (elim o [
        | returns (no_error, s) ↦ returns (pos 0, some s)
        | returns (e, s) ↦ returns (einval, none)
        | throws ↦ throws
        | faults ↦ faults
      ])
  KeptOpen-init (returns (no_error, s)) q = q
  KeptOpen-init (returns (_, s)) q = tt
  KeptOpen-init throws q = tt
  KeptOpen-init faults q = tt

  pub KeptOpen-hook_dev_open :
      (is_composer : Bool) (found : Found) (k : K)
      → found.planner ≡ stages
      → KeptOpen (hook_dev_open kernel is_composer found k)
  unfolding hook_dev_open
  KeptOpen-hook_dev_open is_composer found k e =
      holds-if KeptOpen (not is_composer) tt
        (KeptOpen-init (init kernel found k) (KeptInit-init found k e))

module _ {K : Type 0} (kernel : Kernel K) where
  opened-AllBlank :
      (is_composer : Bool) (found : Found) (k : K) (ret : ℤ) (s : Hwc K)
      → hook_dev_open kernel is_composer found k ≡ returns (ret, some s)
      → AllBlank kernel found.planner s.displays
  opened-AllBlank is_composer found k ret s opened =
      rw (opened, KeptOpen) at
        (KeptOpen-hook_dev_open kernel found.planner is_composer found k refl)

  -- An invariant of the calls that blank displays have holds behind each sequence of calls on the
  -- device that HookDevOpen gives.
  pub opened-keeps :
      (w : Surroundings K) (i : Invariant kernel w) (is_composer : Bool) (found : Found) (k : K)
      (ret : ℤ) (s : Hwc K) (cs : List Call)
      → ((h : HwcDisplay K) → Blank kernel found.planner h.display → i.Holds 0 h)
      → hook_dev_open kernel is_composer found k ≡ returns (ret, some s)
      → All i.Says (run kernel w cs s).0
        × Everywhere kernel w i (layers_made cs + 0) (run kernel w cs s).1.displays
  opened-keeps w i is_composer found k ret s cs start opened =
      run-keeps kernel w i cs 0 s
        (All-weaken (λ d. start d.1) s.displays (opened-AllBlank is_composer found k ret s opened))

  module _ (w : Surroundings K) where
    -- Whatever HookDevOpen finds, and whatever calls SurfaceFlinger then makes on the device that it
    -- gives, no answer of theirs hands out a descriptor as the retire fence of a frame.
    pub opened-NoFence :
        (is_composer : Bool) (found : Found) (k : K) (ret : ℤ) (s : Hwc K) (cs : List Call)
        → hook_dev_open kernel is_composer found k ≡ returns (ret, some s)
        → All (NoRetireFence kernel w) (run kernel w cs s).0
    opened-NoFence is_composer found k ret s cs opened =
        (opened-keeps w (quiet kernel w) is_composer found k ret s cs (λ h b. b.0) opened).0
