-- ===== src/Display/Owners.antt =====
-- The descriptors that SetLayerBuffer and SetClientTarget are given, copy and close.
use drm_hwcomposer.Base.{
  ℕ, ◌+◌, ◌≡◌, List, ℤ, pos, ◌==ℤ◌, if◌then◌else◌, arith, count_if, count_if-append,
}
use drm_hwcomposer.Display.Layer.{
  HwcLayer, close_fd, set_acquire_fence, set_layer_buffer, set_client_target, handled_elsewhere,
}

-- How often a descriptor stands in a list; a held or given one that is below 0 is none.
abbrev pub uses_of : ℤ → List ℤ → ℕ
uses_of fd = count_if (λ x. x ==ℤ fd)

-- Each valid descriptor that SetClientTarget is given, holds before or gets from dup is closed or
-- is held afterwards, exactly as often: none is lost, and none is closed and kept.
pub set_client_target-owns :
    (dup : ℤ → ℤ) (target dataspace fd : ℕ) (fence : ℤ) (l : HwcLayer)
    → let (_, closed, l') = set_client_target dup target fence dataspace l in
      uses_of (pos fd) closed + uses_of (pos fd) (close_fd l'.acquire_fence)
      ≡ uses_of (pos fd) (close_fd l.acquire_fence)
        + uses_of (pos fd) (close_fd fence)
        + uses_of (pos fd) (close_fd (dup fence))
unfolding set_client_target set_acquire_fence
set_client_target-owns dup target dataspace fd fence l =
    omega
      (arith, count_if-append {0} (λ x. x ==ℤ pos fd) (close_fd l.acquire_fence) (close_fd fence))

-- The same of SetLayerBuffer, which makes no copy for a layer of the type Client, Sideband or
-- SolidColor: each valid descriptor that it is given, holds before or gets from dup is closed or is
-- held afterwards, exactly as often.
pub set_layer_buffer-owns :
    (dup : ℤ → ℤ) (buffer fd : ℕ) (fence : ℤ) (l : HwcLayer)
    → let (_, closed, l') = set_layer_buffer dup buffer fence l in
      uses_of (pos fd) closed + uses_of (pos fd) (close_fd l'.acquire_fence)
      ≡ uses_of (pos fd) (close_fd l.acquire_fence)
        + uses_of (pos fd) (close_fd fence)
        + (if handled_elsewhere l.sf_type then 0 else uses_of (pos fd) (close_fd (dup fence)))
unfolding set_layer_buffer set_acquire_fence
set_layer_buffer-owns dup buffer fd fence l =
    ground
      (arith, count_if-append {0} (λ x. x ==ℤ pos fd) (close_fd l.acquire_fence) (close_fd fence))
