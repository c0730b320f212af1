-- ===== src/Buffer.antt =====
-- DrmHwcBuffer and DrmHwcNativeHandle (drmhwcomposer.h, hwcutils.cpp): the owners of an imported
-- buffer object and of a copied buffer handle.
pub mod Slots
pub mod Ownership
use drm_hwcomposer.Base.{
  ℕ, zero, suc, Option, none, some, List, [], ◌∷◌, ℤ, pos, if◌then◌else◌, is_set,
}

-- DrmHwcBuffer. An importer and a buffer object are numbers; a null importer is `none`.
pub record HwcBuffer : Type 0 where
  pub bo : ℕ
  pub importer : Option ℕ

-- A call of ReleaseBuffer: the importer, and the object that it releases.
abbrev pub Release : Type 0
Release = ℕ × ℕ

-- The default constructor; it leaves `bo_` as it finds it.
abbrev pub new_buffer : HwcBuffer
new_buffer = record { bo = 0; importer = none }

unfoldable pub clear : HwcBuffer → List Release × HwcBuffer
clear b = elim b.importer [
  | none ↦ ([], b)
  | some i ↦ ((i, b.bo) ∷ [], record b { importer = none })
]

-- The object behind `->`; the process exits where there is none.
unfoldable pub object : HwcBuffer → Option ℕ
object b = elim b.importer [ none ↦ none | some i ↦ some b.bo ]

-- ImportBuffer, over what the importer gives for the handle: the result, what is released, and the
-- buffer.
unfoldable pub import_object : ℤ × ℕ → ℕ → HwcBuffer → ℤ × List Release × HwcBuffer
unfolding clear
import_object got importer b =
    if is_set got.0
    then (got.0, [], b)
    else (pos 0, (clear b).0, record { bo = got.1; importer = some importer })

-- The buffers of the program, each at its number.
abbrev pub Store : Type 0
Store = List HwcBuffer

unfoldable pub slot : ℕ → Store → HwcBuffer
slot i [] = new_buffer
slot zero (b ∷ s) = b
slot (suc i) (b ∷ s) = slot i s

unfoldable pub put : ℕ → HwcBuffer → Store → Store
put i b [] = []
put zero b (c ∷ s) = b ∷ s
put (suc i) b (c ∷ s) = c ∷ put i b s

-- What the move assignment of the buffer `j` to the buffer `i` does behind its call of Clear. The
-- two may be the same.
unfoldable pub take_over : ℕ → ℕ → Store → Store
unfolding slot put
take_over i j s =
    let s1 = put i (record (slot i s) { importer = (slot j s).importer }) s in
    let s2 = put j (record (slot j s1) { importer = none }) s1 in
    put i (record (slot i s2) { bo = (slot j s2).bo }) s2

-- The move assignment: what is released, and the buffers.
unfoldable pub move_assign : ℕ → ℕ → Store → List Release × Store
unfolding clear take_over
move_assign i j s = let (released, b) = clear (slot i s) in (released, take_over i j (put i b s))

-- DrmHwcNativeHandle.
pub record NativeHandle : Type 0 where
  pub handle : Option ℕ

-- Clear: the handles that are freed. What freeBuffer returns is only logged.
unfoldable pub clear_handle : NativeHandle → List ℕ × NativeHandle
clear_handle h = elim h.handle [ none ↦ ([], h) | some n ↦ (n ∷ [], record { handle = none }) ]

-- CopyBufferHandle, over what GraphicBufferMapper::importBuffer gives.
unfoldable pub copy_buffer_handle : ℤ × ℕ → NativeHandle → ℤ × List ℕ × NativeHandle
unfolding clear_handle
copy_buffer_handle got h =
    if is_set got.0
    then (got.0, [], h)
    else (pos 0, (clear_handle h).0, record { handle = some got.1 })
