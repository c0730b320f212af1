-- ===== src/Flatten/State.antt =====
-- The state that flattening needs beside the compositor's, and the steps that its ways share.
use drm_hwcomposer.Base.{
  ℕ, ◌+◌, ◌*◌, ◌%◌, ltb, Bool, false, not, Option, none, some, List, [], ◌∷◌, ◌++◌, ℤ, pos, neg,
  if◌then◌else◌, is_neg, length, get_elem?,
}
use drm_hwcomposer.Resources.{Plane, Crtc}
use drm_hwcomposer.Mode.{Mode}
use drm_hwcomposer.Layer.{Rect, DrmLayer, new_layer, Importer}
use drm_hwcomposer.Planner.{Stage, CompositionPlane, layer}
use drm_hwcomposer.Composition.{Composition, new_composition, init}
use drm_hwcomposer.Compositor.State.{Compositor, countdown_expired}
use drm_hwcomposer.Framebuffer.{Framebuffer, Graphics, allocate}

-- DRM_DISPLAY_BUFFERS.
abbrev pub display_buffers : ℕ
display_buffers = 3

abbrev pub wait_writeback_fence_ms : ℕ
wait_writeback_fence_ms = 100

-- The compositor with its framebuffers and the fence that the kernel stores for a writeback.
-- `closed` holds the descriptors that were closed, in order.
pub record Flattener (K : Type 0) : Type 0 where
  pub compositor : Compositor K
  pub framebuffers : List Framebuffer
  pub framebuffer_index : ℕ
  pub writeback_fence : ℤ
  pub closed : List ℤ

-- What the platform gives to a display: its importer (NULL is `none`), its planner, the planes of
-- its device, the graphics calls, and the fence that a commit stored at `&writeback_fence_`.
pub record Setting (K : Type 0) : Type 0 where
  pub importer : Option Importer
  pub planner : List Stage
  pub planes : List Plane
  pub graphics : Graphics
  pub stored_fence : K → ℤ

-- CreateInitializedComposition, which gives NULL where a lookup fails.
unfoldable pub create_initialized_composition :
    {K : Type 0} → Setting K → Compositor K → Option Composition
unfolding init
create_initialized_composition e s = elim s.crtc [
  | none ↦ none
  | some crtc ↦ elim e.importer [
    | none ↦ none
    | some importer ↦ some (init (some crtc) e.planner 0 new_composition).1
  ]
]

unfoldable pub put_framebuffer : ℕ → Framebuffer → List Framebuffer → List Framebuffer
put_framebuffer i f [] = []
put_framebuffer ℕ.zero f (g ∷ gs) = f ∷ gs
put_framebuffer (ℕ.suc i) f (g ∷ gs) = g ∷ put_framebuffer i f gs

-- `&framebuffers_[framebuffer_index_]`, with the index moved on.
unfoldable pub next_framebuffer : {K : Type 0} → Flattener K → ℕ × Flattener K
next_framebuffer f = (
  f.framebuffer_index,
  record f { framebuffer_index = (f.framebuffer_index + 1) % display_buffers },
)

-- `writeback_fb->Allocate(…)` with the size of the compositor's mode: whether it succeeds, and the
-- buffer's handle.
unfoldable pub allocate_in :
    {K : Type 0} → Setting K → ℕ → Framebuffer → Flattener K → Bool × ℕ × Flattener K
unfolding allocate put_framebuffer
allocate_in e i fb f =
    let mode : Mode = f.compositor.mode.mode in
    let done = allocate e.graphics mode.h_display mode.v_display fb in
    (
      done.0,
      elim done.2.buffer [ none ↦ 0 | some b ↦ b.handle ],
      record f {
        framebuffers = put_framebuffer i done.2 f.framebuffers;
        closed = f.closed ++ done.1;
      },
    )

-- The same for the framebuffer at an index; `none` is an index beyond the array.
unfoldable pub allocate_writeback :
    {K : Type 0} → Setting K → ℕ → Flattener K → Option (Bool × ℕ × Flattener K)
unfolding allocate_in
allocate_writeback e i f = elim (get_elem? f.framebuffers i) [
  | none ↦ none
  | some fb ↦ some (allocate_in e i fb f)
]

-- `{0, 0, h_display, v_display}`, as whole pixels and as a source crop.
abbrev pub full_frame : ℕ → Mode → Rect
full_frame unit mode = record {
  left = pos 0;
  top = pos 0;
  right = pos (unit * mode.h_display);
  bottom = pos (unit * mode.v_display);
}

unfoldable pub full_layer : ℕ → Mode → DrmLayer
full_layer handle mode = record new_layer {
  sf_handle = handle;
  source_crop = full_frame 65536 mode;
  display_frame = full_frame 1 mode;
}

-- Behind a commit with a writeback: the fence that the kernel stored is waited for, and goes to the
-- layer.
unfoldable pub take_writeback_fence :
    {K : Type 0} → Setting K → DrmLayer → Flattener K → ℤ × DrmLayer × Flattener K
take_writeback_fence e l f =
    let fence = e.stored_fence f.compositor.kernel_state in
    (
      e.graphics.sync_wait fence wait_writeback_fence_ms,
      record l { acquire_fence = fence },
      record f {
        writeback_fence = neg 1;
        closed = if is_neg l.acquire_fence then f.closed else f.closed ++ l.acquire_fence ∷ [];
      },
    )

-- Whether there is something to flatten; `none` is a read through a null composition.
unfoldable pub flattening_needed : {K : Type 0} → Compositor K → Option Bool
unfolding countdown_expired
flattening_needed s = if not (countdown_expired s) then some false else elim s.active_composition [
  | none ↦ none
  | some active ↦ some (not (ltb (length active.layers) 2))
]

-- The plane that shall show the flattened frame, whose only layer has the index 0.
abbrev pub squashed_plane : Crtc → Option Plane → CompositionPlane
squashed_plane crtc plane = record {
  kind = layer;
  plane = plane;
  crtc = some crtc;
  source_layers = 0 ∷ [];
}
