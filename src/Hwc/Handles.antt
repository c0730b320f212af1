-- ===== src/Hwc/Handles.antt =====
-- The handles of layers through all calls that SurfaceFlinger makes.
use drm_hwcomposer.Base.{ℕ, ◌+◌, ◌≤◌, ◌<◌, ◌^◌, ◌≡◌, Bool, some, List, ℤ, arith, All, All-weaken}
use drm_hwcomposer.Planner.{Stage}
use drm_hwcomposer.Kernel.{Kernel}
use drm_hwcomposer.Display.State.{Display, create_layer, destroy_layer}
use drm_hwcomposer.Display.Handles.{HandlesIsValid, handles, create_layer_lem, destroy_layer_lem}
use drm_hwcomposer.Display.Kept.{HasHandles}
use drm_hwcomposer.Hwc.Calls.{Surroundings}
use drm_hwcomposer.Hwc.State.{Hwc, returns}
use drm_hwcomposer.Hwc.Start.{Found, hook_dev_open}
use drm_hwcomposer.Hwc.Root.{Call, run}
use drm_hwcomposer.Hwc.Sequence.{layers_made}
use drm_hwcomposer.Hwc.Kept.{IsCounted, of_counted}
use drm_hwcomposer.Hwc.Opened.{Blank, opened-keeps}

module _ {K : Type 0} where
  -- The handles are valid, and so many layers were made at most, unless the counter wrapped around.
  abbrev pub Numbered : ℕ → Display K → Type 0
  Numbered n d = n < 2 ^ 32 → HandlesIsValid d × (d.layer_idx ≤ n)

  HandlesIsValid-kept :
      (d d' : Display K)
      → HasHandles (handles d.layers) d.layer_idx d'
      → HandlesIsValid d
      → HandlesIsValid d'
  HandlesIsValid-kept d d' k v = record { sorted = rw k.0 v.sorted; below = rw (k.0, k.1) v.below }

  Numbered-kept :
      (n : ℕ) (d d' : Display K)
      → HasHandles (handles d.layers) d.layer_idx d'
      → Numbered n d
      → Numbered (0 + n) d'
  Numbered-kept n d d' k p l =
      let (v, b) = p (omega arith) in (HandlesIsValid-kept d d' k v, rw k.1 (omega arith))

  Numbered-up : (m n : ℕ) (d : Display K) → m ≤ n → Numbered m d → Numbered n d
  Numbered-up m n d l p k = let (v, b) = p (omega arith) in (v, omega arith)

  Numbered-create_layer :
      (n : ℕ) (d : Display K) → Numbered n d → Numbered (1 + n) (create_layer d).2
  unfolding create_layer
  Numbered-create_layer n d p l =
      let (v, b) = p (omega arith) in ((create_layer_lem d 0 v (omega arith)).3, omega arith)

  Numbered-destroy_layer :
      (n h : ℕ) (d : Display K) → Numbered n d → Numbered (0 + n) (destroy_layer h d).1
  unfolding destroy_layer
  Numbered-destroy_layer n h d p l =
      let (v, b) = p (omega arith) in ((destroy_layer_lem d h 0 v).1, omega arith)

  -- The handles stay valid, as long as the counter does not wrap around.
  Numbered-IsCounted : IsCounted Numbered
  Numbered-IsCounted = record {
    by_same = λ n d d' k p. Numbered-kept n d d' k.0 p;
    up = Numbered-up;
    by_create = Numbered-create_layer;
    by_destroy = Numbered-destroy_layer;
  }

module _ {K : Type 0} (kernel : Kernel K) (w : Surroundings K) where
  Blank-Numbered : (stages : List Stage) (d : Display K) → Blank kernel stages d → Numbered 0 d
  Blank-Numbered stages d b l =
      (record { sorted = rw b.1.0 tt; below = rw b.1.0 tt }, rw b.1.1 (omega arith))

  -- Whatever HookDevOpen finds, and whatever calls SurfaceFlinger then makes on the device that it
  -- gives, fewer than 2^32 of which make a layer: in every display the handles of the layers are in
  -- ascending order and below the one that CreateLayer gives next.
  pub opened-HandlesIsValid :
      (is_composer : Bool) (found : Found) (k : K) (ret : ℤ) (s : Hwc K) (cs : List Call)
      → hook_dev_open kernel is_composer found k ≡ returns (ret, some s)
      → layers_made cs < 2 ^ 32
      → All (λ d. HandlesIsValid d.1.display) (run kernel w cs s).1.displays
  opened-HandlesIsValid is_composer found k ret s cs opened few =
      All-weaken (λ d p. (p (omega arith)).0) _
        (opened-keeps kernel w (of_counted kernel w Numbered Numbered-IsCounted) is_composer found k
          ret s cs (λ h b. Blank-Numbered found.planner h.display b) opened).1
