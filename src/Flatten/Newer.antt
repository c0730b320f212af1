-- ===== src/Flatten/Newer.antt =====
-- A frame that came while FlattenSerial did not hold the lock.
use drm_hwcomposer.Base.{
  ℕ, ◌≡◌, refl, ap, ◌∙◌, ◌||◌, ◌++◌, ◌==◌, not, length, enomem, einval, true, false, Option, some,
  [], ◌∷◌, ℤ, arith, Bool-cases, Option-cases, inl, inr, get_elem?, is_set,
}
use drm_hwcomposer.Resources.{Crtc}
use drm_hwcomposer.Connector.{Connector}
use drm_hwcomposer.Layer.{Bo, Importer, DrmLayer, import_buffer}
use drm_hwcomposer.Composition.{Composition}
use drm_hwcomposer.Kernel.{Kernel}
use drm_hwcomposer.Compositor.State.{Compositor, countdown_expired}
use drm_hwcomposer.Compositor.Apply.{apply_frame}
use drm_hwcomposer.Framebuffer.{Framebuffer}
use drm_hwcomposer.Flatten.State.{
  Flattener, Setting, allocate_in, allocate_writeback, take_writeback_fence, full_layer,
}
use drm_hwcomposer.Flatten.Serial.{
  serial_writeback, serial_apply, serial_commit, serial_imported, serial_rest,
}

-- The call returns, with the compositor as it was but for the kernel's state.
abbrev pub LeavesCompositor : {K : Type 0} → Flattener K → Option (ℤ × Flattener K) → Type 0
LeavesCompositor {K} f r =
    (ret : ℤ) × (f' : Flattener K) × (r ≡ some (ret, f'))
    × (f'.compositor ≡ record (f.compositor) { kernel_state = f'.compositor.kernel_state })

module _ {K : Type 0} (kernel : Kernel K) (e : Setting K) where
  apply_frame-newer :
      (c : Composition) (s : Compositor K)
      → countdown_expired s ≡ false
      → apply_frame kernel c (ℤ.pos 0) true s ≡ some s
  unfolding apply_frame
  apply_frame-newer c s h = rw h

  serial_apply-newer :
      (crtc : Crtc) (l : DrmLayer) (comp : Composition) (f : Flattener K)
      → countdown_expired f.compositor ≡ false
      → LeavesCompositor f (serial_apply kernel e crtc l comp f)
  unfolding serial_apply
  serial_apply-newer crtc l comp f h =
      (ℤ.pos 0, f, rw (apply_frame-newer _ f.compositor h, serial_apply), refl)

  -- The writeback changes the kernel's state alone.
  serial_writeback-keeps :
      (crtc : Crtc) (conn : Connector) (l : DrmLayer) (bo : Bo) (f : Flattener K)
      → let done = serial_writeback kernel e crtc conn l bo f in
        done.2.compositor ≡ record (f.compositor) { kernel_state = done.2.compositor.kernel_state }
  unfolding serial_writeback take_writeback_fence
  serial_writeback-keeps crtc conn l bo f = ground arith

  keeps-newer :
      (s : Compositor K) (k : K)
      → countdown_expired s ≡ false
      → countdown_expired (record s { kernel_state = k }) ≡ false
  unfolding countdown_expired
  keeps-newer s k h = h

  LeavesCompositor-trans :
      (f f' : Flattener K) (r : Option (ℤ × Flattener K))
      → f'.compositor ≡ record (f.compositor) { kernel_state = f'.compositor.kernel_state }
      → LeavesCompositor f' r
      → LeavesCompositor f r
  LeavesCompositor-trans f f' r h (ret, f2, e1, e2) = (
    ret,
    f2,
    e1,
    e2 ∙ ap (λ (s : Compositor K). record s { kernel_state = f2.compositor.kernel_state }) h,
  )

  serial_commit-newer :
      (conn : Connector) (comp : Composition) (crtc : Crtc) (l : DrmLayer) (bo : Bo)
      (f : Flattener K)
      → countdown_expired f.compositor ≡ false
      → l.buffer ≡ some bo
      → LeavesCompositor f (serial_commit kernel e conn comp crtc l f)
  unfolding serial_commit
  serial_commit-newer conn comp crtc l bo f h has =
      let done : ℤ × DrmLayer × Flattener K = serial_writeback kernel e crtc conn l bo f in
      let kept = serial_writeback-keeps crtc conn l bo f in
      elim (Bool-cases (is_set done.0)) [
        | inl failed ↦ (done.0, done.2, ground arith, kept)
        | inr fine ↦
            let applied =
              serial_apply-newer crtc done.1 comp done.2
                (rw kept (keeps-newer f.compositor done.2.compositor.kernel_state h)) in
            let (ret, f', e1, e2) = LeavesCompositor-trans f done.2 _ kept applied in
            (ret, f', ground arith, e2)
      ]

  serial_imported-newer :
      (conn : Connector) (comp : Composition) (ret : ℤ) (l : DrmLayer) (f : Flattener K)
      → countdown_expired f.compositor ≡ false
      → (is_set ret ≡ false → (bo : Bo) × (l.buffer ≡ some bo))
      → LeavesCompositor f (serial_imported kernel e conn comp (ret, l) f)
  unfolding serial_imported
  serial_imported-newer conn comp ret l f h has =
      elim (Bool-cases (is_set ret || not (length (comp.layers ++ l ∷ []) == 1))) [
        | inl bad ↦ (ret, f, rw bad, refl)
        | inr fine ↦ elim (Bool-cases (kernel.can_alloc f.compositor.kernel_state)) [
          | inr full ↦ (enomem, f, rw fine (rw full), refl)
          | inl room ↦ elim (Option-cases f.compositor.crtc) [
            | inl none_there ↦ (einval, f, ground arith, refl)
            | inr (crtc, there) ↦
                let (bo, hb) = has (ground arith) in
                let (r, f', e1, e2) = serial_commit-newer conn comp crtc l bo f h hb in
                (r, f', ground arith, e2)
          ]
        ]
      ]

  import_buffer-has :
      (i : Importer) (l : DrmLayer)
      → is_set (import_buffer i l).0 ≡ false
      → (bo : Bo) × ((import_buffer i l).1.buffer ≡ some bo)
  unfolding import_buffer
  import_buffer-has i l h = ((i.import_bo l.sf_handle).1, ground arith)

  allocate_in-keeps :
      (i : ℕ) (fb : Framebuffer) (f : Flattener K)
      → (allocate_in e i fb f).2.compositor ≡ f.compositor
  unfolding allocate_in
  allocate_in-keeps i fb f = refl

  same-kept : (s s' : Compositor K) → s' ≡ s → s' ≡ record s { kernel_state = s'.kernel_state }
  same-kept s s' h = ground arith

  -- When the countdown is not expired any more where FlattenSerial goes on behind its lock, since a
  -- new frame was shown meanwhile, then FlattenSerial returns and leaves the compositor as it is
  -- there, but for the kernel's state: the flattened frame does not replace the newer one. This
  -- supposes the importer, and that the index is one of a framebuffer.
  pub serial_rest-newer :
      (conn : Connector) (comp : Composition) (i : ℕ) (fb : Framebuffer) (importer : Importer)
      (f : Flattener K)
      → get_elem? f.framebuffers i ≡ some fb
      → e.importer ≡ some importer
      → countdown_expired f.compositor ≡ false
      → LeavesCompositor f (serial_rest kernel e conn comp i f)
  unfolding serial_rest allocate_writeback
  serial_rest-newer conn comp i fb importer f there has h =
      let taken = allocate_in e i fb f in
      let f1 : Flattener K = taken.2 in
      let kept = same-kept f.compositor f1.compositor (allocate_in-keeps i fb f) in
      let got = import_buffer importer (full_layer taken.1 f1.compositor.mode.mode) in
      elim (Bool-cases taken.0) [
        | inr full ↦ (enomem, f1, ground arith, kept)
        | inl room ↦
            let done =
              serial_imported-newer conn comp got.0 got.1 f1 (rw (allocate_in-keeps i fb f) h)
                (import_buffer-has importer (full_layer taken.1 f1.compositor.mode.mode)) in
            let (ret, f2, e1, e2) = LeavesCompositor-trans f f1 _ kept done in
            (ret, f2, ground arith, e2)
      ]
