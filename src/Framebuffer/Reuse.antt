-- ===== src/Framebuffer/Reuse.antt =====
-- When DrmFramebuffer::Allocate keeps its buffer, and when it gives it back.
use drm_hwcomposer.Base.{
  ℕ, ◌≡◌, ◌⊎◌, true, false, ◌&&◌, some, [], ◌∷◌, neg, ◌==◌, is_neg, is_set, arith,
}
use drm_hwcomposer.Framebuffer.{
  GraphicBuffer, Framebuffer, Graphics, release_wait_timeout_ms, allocate,
}

-- The buffer has the size that is asked for.
abbrev pub Fits : ℕ → ℕ → Framebuffer → Type 0
Fits w h f = (b : GraphicBuffer) × (f.buffer ≡ some b) × (b.width ≡ w) × (b.height ≡ h)

-- Allocate on a framebuffer that holds a buffer: when it succeeds, the buffer has the size that is
-- asked for, and either nothing has changed, or what was held had another size, its release fence,
-- if it had one, was waited for without an error and is closed once, and no fence is held any more.
-- When it fails, the wait for the fence has failed, and the buffer and its fence are kept.
pub allocate_lem :
    (g : Graphics) (w h : ℕ) (f : Framebuffer) (b : GraphicBuffer)
    → f.buffer ≡ some b
    → let done = allocate g w h f in
      ((done.0 ≡ true)
        × Fits w h done.2
        × (((done.2 ≡ f) × (done.1 ≡ []))
            ⊎ (((b.width == w && b.height == h) ≡ false)
                × (done.2.release_fence_fd ≡ neg 1)
                × (((is_neg f.release_fence_fd ≡ true) × (done.1 ≡ []))
                    ⊎ ((is_neg f.release_fence_fd ≡ false)
                        × (is_set (g.sync_wait f.release_fence_fd release_wait_timeout_ms) ≡ false)
                        × (done.1 ≡ f.release_fence_fd ∷ []))))))
      ⊎ ((done.0 ≡ false)
          × (is_set (g.sync_wait f.release_fence_fd release_wait_timeout_ms) ≡ true)
          × (done.2 ≡ f)
          × (done.1 ≡ []))
unfolding allocate
allocate_lem g w h f b e = ground arith
