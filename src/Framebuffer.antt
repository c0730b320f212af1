-- ===== src/Framebuffer.antt =====
-- drmframebuffer.h: a buffer that the compositor draws or writes back to, with its release fence.
pub mod Reuse
use drm_hwcomposer.Base.{
  ℕ, Bool, true, false, not, ◌&&◌, Option, none, some, List, [], ◌∷◌, ℤ, pos, neg, if◌then◌else◌,
  ◌==◌, is_neg, is_set,
}

-- The fields of GraphicBuffer that the code reads.
pub record GraphicBuffer : Type 0 where
  pub width : ℕ
  pub height : ℕ
  pub handle : ℕ

pub record Framebuffer : Type 0 where
  pub buffer : Option GraphicBuffer
  pub release_fence_fd : ℤ

abbrev pub new_framebuffer : Framebuffer
new_framebuffer = record { buffer = none; release_fence_fd = neg 1 }

-- What the platform does: sync_wait on a fence for so many milliseconds, and the handle of a new
-- buffer of a width and a height (`new GraphicBuffer`, which does not return NULL).
pub record Graphics : Type 0 where
  pub sync_wait : ℤ → ℕ → ℤ
  pub new_buffer : ℕ → ℕ → ℕ

abbrev pub release_wait_timeout_ms : ℕ
release_wait_timeout_ms = 1500

unfoldable pub is_valid : Framebuffer → Bool
is_valid f = elim f.buffer [ none ↦ false | some b ↦ true ]

-- An operation returns the descriptors that it closes.
abbrev pub close_fence : Framebuffer → List ℤ
close_fence f = if is_neg f.release_fence_fd then [] else f.release_fence_fd ∷ []

-- The destructor.
unfoldable pub destroy : Framebuffer → List ℤ
destroy f = close_fence f

unfoldable pub set_release_fence_fd : ℤ → Framebuffer → List ℤ × Framebuffer
set_release_fence_fd fd f = (close_fence f, record f { release_fence_fd = fd })

unfoldable pub clear : Framebuffer → List ℤ × Framebuffer
unfolding is_valid
clear f = if not (is_valid f) then ([], f) else (
  close_fence f,
  record {
    buffer = none;
    release_fence_fd = if is_neg f.release_fence_fd then f.release_fence_fd else neg 1;
  },
)

unfoldable pub wait_released : Graphics → ℕ → Framebuffer → ℤ
unfolding is_valid
wait_released g timeout f =
    if not (is_valid f)
    then pos 0
    else if is_neg f.release_fence_fd
    then pos 0
    else g.sync_wait f.release_fence_fd timeout

-- The end of Allocate.
abbrev fresh : Graphics → ℕ → ℕ → List ℤ → Bool × List ℤ × Framebuffer
fresh g w h closed = (
  true,
  closed,
  record {
    buffer = some (record { width = w; height = h; handle = g.new_buffer w h });
    release_fence_fd = neg 1;
  },
)

unfoldable pub allocate : Graphics → ℕ → ℕ → Framebuffer → Bool × List ℤ × Framebuffer
unfolding clear is_valid
allocate g w h f = elim f.buffer [
  | none ↦ fresh g w h []
  | some b ↦
      let cleared = clear f in
      let waited = g.sync_wait f.release_fence_fd release_wait_timeout_ms in
      if b.width == w && b.height == h
      then (true, [], f)
      else if not (is_neg f.release_fence_fd) && is_set waited
      then (false, [], f)
      else fresh g w h cleared.0
]
