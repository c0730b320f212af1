-- ===== src/Kernel.antt =====
-- What the compositor asks of the kernel through libdrm, and the layout of an atomic request.
use drm_hwcomposer.Base.{
  ℕ, ◌-◌, ◌%◌, ◌^◌, Bool, true, false, ◌||◌, List, [], ◌∷◌, ◌++◌, ℤ, pos, negsuc, if◌then◌else◌,
  is_neg,
}
use drm_hwcomposer.Mode.{ModeInfo}

-- The value of a property in a request: a number, or the address where the kernel shall store a
-- fence (`&out_fences[pipe]`, `&writeback_fence_`).
pub data Value : Type 0 where
  number : ℕ → Value
  out_fence_of : ℕ → Value
  writeback_fence : Value

pub record Request : Type 0 where
  pub object : ℕ
  pub property : ℕ
  pub value : Value

-- The value of an `int` as the uint64_t that libdrm takes.
abbrev pub to_u64 : ℤ → ℕ
to_u64 (pos n) = n % 2 ^ 64
to_u64 (negsuc n) = 2 ^ 64 - 1 - n % 2 ^ 64

-- The calls, over the kernel's own state `K`.
pub record Kernel (K : Type 0) : Type 0 where
  -- drmModeAtomicAlloc gives a request, and does not return NULL.
  pub can_alloc : K → Bool
  -- The result of drmModeAtomicAddProperty, on a request with these properties.
  pub add_result : K → List Request → Request → ℤ
  pub commit : K → List Request → ℕ → ℤ × K
  -- The fence that the last commit stored for a CRTC's pipe.
  pub out_fence : K → ℕ → ℤ
  -- drmModeConnectorSetProperty: the connector, the property and the value.
  pub set_property : K → ℕ → ℕ → ℕ → ℤ × K
  -- DRM_IOCTL_MODE_CREATEPROPBLOB: its result, the id of the blob and the state.
  pub create_blob : K → ModeInfo → ℤ × ℕ × K
  pub destroy_blob : K → ℕ → ℤ × K

-- DRM_MODE_ATOMIC_TEST_ONLY and DRM_MODE_ATOMIC_ALLOW_MODESET.
abbrev pub test_only_flag : ℕ
test_only_flag = 0x100

abbrev pub allow_modeset_flag : ℕ
allow_modeset_flag = 0x400

module _ {K : Type 0} (kernel : Kernel K) (k : K) where
  -- A request holds the properties whose call of drmModeAtomicAddProperty did not fail.
  unfoldable pub add_property : List Request → Request → ℤ × List Request
  add_property pset r =
      let ret = kernel.add_result k pset r in
      if is_neg ret then (ret, pset) else (ret, pset ++ r ∷ [])

  -- `add(first) < 0 || add(second) < 0`.
  unfoldable pub add_both : List Request → Request → Request → Bool × List Request
  unfolding add_property
  add_both pset first second =
      let a = add_property pset first in
      let b = add_property a.1 second in if is_neg a.0 then (true, a.1) else (is_neg b.0, b.1)

  -- `ret |= add(…) < 0` for each of a list: a call that fails does not stop the others.
  unfoldable pub add_each : List Request → List Request → Bool × List Request
  unfolding add_property
  add_each pset [] = (false, pset)
  add_each pset (r ∷ rs) =
      let a = add_property pset r in let rest = add_each a.1 rs in (is_neg a.0 || rest.0, rest.1)
