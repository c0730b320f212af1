-- ===== src/Compositor/Frame.antt =====
-- DrmDisplayCompositor::CommitFrame and SetupWritebackCommit.
use drm_hwcomposer.Base.{
  ℕ, Bool, false, not, ◌&&◌, ◌||◌, Option, none, some, List, [], ℤ, pos, einval, enodev, enomem,
  if◌then◌else◌, ◌==◌, is_neg, is_set, bit_or,
}
use drm_hwcomposer.Resources.{Crtc, Result, ok, err, ◌>>=◌}
use drm_hwcomposer.Connector.{Connector}
use drm_hwcomposer.Layer.{Bo}
use drm_hwcomposer.Composition.{Composition}
use drm_hwcomposer.Kernel.{
  Kernel, Request, number, out_fence_of, writeback_fence, test_only_flag, allow_modeset_flag,
  add_property, add_both,
}
use drm_hwcomposer.Commit.{commit_planes}
use drm_hwcomposer.Compositor.State.{ModeState, Compositor, destroy_property_blob, apply_dpms}

module _ {K : Type 0} (kernel : Kernel K) where
  -- SetupWritebackCommit: the framebuffer that the connector writes, its fence and its CRTC.
  unfoldable pub setup_writeback_commit : K → List Request → ℕ → Connector → Bo → ℤ × List Request
  setup_writeback_commit k pset crtc_id conn bo =
      let fb =
        add_property kernel k pset
          (record { object = conn.id; property = conn.writeback_fb_id; value = number bo.fb_id }) in
      let fence = add_property kernel k fb.1 (record {
        object = conn.id;
        property = conn.writeback_out_fence;
        value = writeback_fence;
      }) in
      let crtc =
        add_property kernel k fence.1
          (record { object = conn.id; property = conn.crtc_id_property; value = number crtc_id }) in
      if conn.writeback_fb_id == 0 || conn.writeback_out_fence == 0
      then (einval, pset)
      else if bo.fb_id == 0
      then (einval, pset)
      else if is_neg fb.0
      then fb
      else if is_neg fence.0
      then fence
      else if is_neg crtc.0
      then crtc
      else (pos 0, crtc.1)

  -- The parts of a request in front of the planes; each is `ret` and the request, or the error with
  -- which CommitFrame returns.
  unfoldable pub writeback_part :
      K → ℕ → Option Connector → Option Bo → List Request → Result (ℤ × List Request)
  unfolding setup_writeback_commit
  writeback_part k crtc_id conn none pset = ok (pos 0, pset)
  writeback_part k crtc_id none (some bo) pset = err einval
  writeback_part k crtc_id (some conn) (some bo) pset =
      let done = setup_writeback_commit k pset crtc_id conn bo in
      if is_neg done.0 then err done.0 else ok done

  -- `ret` keeps what drmModeAtomicAddProperty returned, which is positive when it succeeds.
  unfoldable pub out_fence_part : K → Crtc → ℤ × List Request → Result (ℤ × List Request)
  unfolding add_property
  out_fence_part k crtc (ret, pset) =
      let added = add_property kernel k pset (record {
        object = crtc.id;
        property = crtc.out_fence_ptr_property;
        value = out_fence_of crtc.pipe;
      }) in
      if crtc.out_fence_ptr_property == 0
      then ok (ret, pset)
      else if is_neg added.0
      then err added.0
      else ok added

  unfoldable pub modeset_part :
      K → ModeState → Crtc → Connector → ℤ × List Request → Result (ℤ × List Request)
  unfolding add_property add_both
  modeset_part k mode crtc conn (ret, pset) =
      let active =
        add_property kernel k pset
          (record { object = crtc.id; property = crtc.active_property; value = number 1 }) in
      let blob =
        add_both kernel k active.1
          (record { object = crtc.id; property = crtc.mode_property; value = number mode.blob_id })
          (record { object = conn.id; property = conn.crtc_id_property; value = number crtc.id }) in
      if mode.needs_modeset
      then (if is_neg active.0
          then err active.0
          else if blob.0
          then err (pos 1)
          else ok (pos 0, blob.1))
      else ok (ret, pset)

  unfoldable pub request_head :
      K → ModeState → Crtc → Connector → Option Connector → Option Bo → Result (ℤ × List Request)
  unfolding writeback_part out_fence_part modeset_part
  request_head k mode crtc conn writeback_conn writeback_buffer = do
    wb ← writeback_part k crtc.id writeback_conn writeback_buffer []
    fenced ← out_fence_part k crtc wb
    modeset_part k mode crtc conn fenced

  abbrev pub commit_flags : Bool → ℕ
  commit_flags test_only =
      if test_only then bit_or allow_modeset_flag test_only_flag else allow_modeset_flag

  -- Behind a commit that brought a new mode: the blob of the mode before it goes, and the display's
  -- power mode is applied.
  unfoldable pub finish_modeset : Composition → Connector → Compositor K → ℤ × Compositor K
  unfolding destroy_property_blob apply_dpms
  finish_modeset c conn s =
      let gone = destroy_property_blob kernel s.mode.old_blob_id s.kernel_state in
      let s1 = record s { kernel_state = gone.1 } in
      let powered = apply_dpms kernel c s1 in
      let s2 : Compositor K = powered.1 in
      if is_set gone.0 then (gone.0, s1) else if is_set powered.0 then powered else (
        pos 0,
        record s2 {
          connector = some (record conn { active_mode = s2.mode.mode });
          mode = record {
            needs_modeset = false;
            mode = s2.mode.mode;
            blob_id = 0;
            old_blob_id = s2.mode.blob_id;
          };
        },
      )

  -- What follows the commit, with `ret` as it is there.
  unfoldable pub after_commit :
      Composition → Bool → Crtc → Connector → ℤ → Compositor K → ℤ × Compositor K × Composition
  after_commit c test_only crtc conn ret s =
      let switching = not test_only && s.mode.needs_modeset in
      let finish : ℤ × Compositor K = if switching then finish_modeset c conn s else (ret, s) in
      let fenced =
        if crtc.out_fence_ptr_property == 0
        then c
        else record c { out_fence = kernel.out_fence s.kernel_state crtc.pipe } in
      if switching && is_set finish.0 then (finish.0, finish.1, c) else (finish.0, finish.1, fenced)

  -- A request that could not be built (`ret` is set) is not committed, and yet the function goes on
  -- behind the commit.
  unfoldable pub commit_request :
      Composition
      → Bool
      → Crtc
      → Connector
      → ℤ
      → List Request
      → Compositor K
      → ℤ × Compositor K × Composition
  commit_request c test_only crtc conn ret pset s =
      let done = kernel.commit s.kernel_state pset (commit_flags test_only) in
      let s1 = record s { kernel_state = done.1 } in
      if is_set ret
      then after_commit c test_only crtc conn ret s
      else if is_set done.0
      then (done.0, s1, c)
      else after_commit c test_only crtc conn (pos 0) s1

  unfoldable pub commit_on :
      Composition
      → Bool
      → Option Connector
      → Option Bo
      → Connector
      → Crtc
      → Compositor K
      → Option (ℤ × Compositor K × Composition)
  unfolding request_head
  commit_on c test_only writeback_conn writeback_buffer conn crtc s =
      if not (kernel.can_alloc s.kernel_state)
      then some (enomem, s, c)
      else elim (request_head s.kernel_state s.mode crtc conn writeback_conn writeback_buffer) [
        | err e ↦ some (e, s, c)
        | ok (ret, pset) ↦
            elim (commit_planes kernel s.kernel_state c.layers c.composition_planes ret pset) [
              | none ↦ none
              | some (ret', pset') ↦ some (commit_request c test_only crtc conn ret' pset' s)
            ]
      ]

  -- CommitFrame. Its result is `ret`, the compositor, and the composition with its out-fence.
  unfoldable pub commit_frame :
      Composition
      → Bool
      → Option Connector
      → Option Bo
      → Compositor K
      → Option (ℤ × Compositor K × Composition)
  unfolding commit_on
  commit_frame c test_only writeback_conn writeback_buffer s = elim s.connector [
    | none ↦ some (enodev, s, c)
    | some conn ↦ elim s.crtc [
      | none ↦ some (enodev, s, c)
      | some crtc ↦ commit_on c test_only writeback_conn writeback_buffer conn crtc s
    ]
  ]
