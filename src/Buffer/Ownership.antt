-- ===== src/Buffer/Ownership.antt =====
-- What becomes of the buffer objects that are imported: DrmHwcBuffer as an owner (drmhwcomposer.h,
-- hwcutils.cpp).
use drm_hwcomposer.Base.{
  ℕ, ◌+◌, ◌<◌, ◌≡◌, ◌∙◌, refl, ap, inl, inr, Bool-cases, ◌==◌, some, List, [], ◌∷◌, ◌++◌, ℤ, All,
  is_set, if◌then◌else◌, arith, length, count_if, count_if-append,
}
use drm_hwcomposer.Buffer.{Release, clear, import_object, Store, slot, put, move_assign}
use drm_hwcomposer.Buffer.Slots.{
  held, releases, slot-put_eq, length-put, held-put, clear-holds, holds-empty, held-take_over,
  length-take_over,
}

-- The calls on the buffers of a store.
pub data Call : Type 0 where
  import : ℕ → ℤ × ℕ → ℕ → Call
  drop : ℕ → Call
  move : ℕ → ℕ → Call

abbrev pub call : Call → Store → List Release × Store
call (import i got importer) s =
    let (_, released, b) = import_object got importer (slot i s) in (released, put i b s)
call (drop i) s = let (released, b) = clear (slot i s) in (released, put i b s)
call (move i j) s = move_assign i j s

abbrev pub run : List Call → Store → List Release × Store
run [] s = ([], s)
run (c ∷ cs) s = let first = call c s in let rest = run cs first.1 in (first.0 ++ rest.0, rest.1)

-- The objects that the successful imports give.
abbrev pub imported : List Call → List ℕ
imported [] = []
imported (import i got importer ∷ cs) =
    let more = imported cs in if is_set got.0 then more else got.1 ∷ more
imported (drop i ∷ cs) = imported cs
imported (move i j ∷ cs) = imported cs

-- The call names buffers that are there.
abbrev pub InRange : ℕ → Call → Type 0
InRange n (import i got importer) = i < n
InRange n (drop i) = i < n
InRange n (move i j) = (i < n) × (j < n)

held-clear :
    (x i : ℕ) (s : Store)
    → i < length s
    → releases x (clear (slot i s)).0 + held x (put i (clear (slot i s)).1 s) ≡ held x s
held-clear x i s l =
    let c = clear (slot i s) in
    let p = held-put x i c.1 s l in
    let q1 = (clear-holds x (slot i s)).0 in
    let q2 = holds-empty x c.1 (clear-holds x (slot i s)).1 in omega arith

held-import :
    (x i importer : ℕ) (got : ℤ × ℕ) (s : Store)
    → i < length s
    → let (_, released, b) = import_object got importer (slot i s) in
      releases x released + held x (put i b s)
      ≡ held x s + count_if (λ y. y == x) (if is_set got.0 then [] else got.1 ∷ [])
unfolding import_object
held-import x i importer got s l = elim (Bool-cases (is_set got.0)) [
  | inl e ↦ let p = held-put x i (slot i s) s l in rw (e, import_object) (omega arith)
  | inr e ↦
      let p = held-put x i (record { bo = got.1; importer = some importer }) s l in
      let q = (clear-holds x (slot i s)).0 in ground arith
]

length-call : (c : Call) (s : Store) → length (call c s).1 ≡ length s
unfolding move_assign
length-call (import i got importer) s = length-put i _ s
length-call (drop i) s = length-put i _ s
length-call (move i j) s = length-take_over i j _ ∙ length-put i _ s

-- A call neither loses an object nor releases one twice.
held-call :
    (x : ℕ) (c : Call) (s : Store)
    → InRange (length s) c
    → releases x (call c s).0 + held x (call c s).1
      ≡ held x s + count_if (λ y. y == x) (imported (c ∷ []))
unfolding move_assign
held-call x (import i got importer) s r = held-import x i importer got s r
held-call x (drop i) s r = let p = held-clear x i s r in omega arith
held-call x (move i j) s r =
    let c = clear (slot i s) in
    let s1 = put i c.1 s in
    let p = held-clear x i s r.0 in
    let l = length-put i c.1 s in
    let q =
      held-take_over x i j s1
        (ap (λ b. b.importer) (slot-put_eq i c.1 s r.0) ∙ (clear-holds x (slot i s)).1) (rw l r.0)
        (rw l r.1) in
    omega arith

imported-count :
    (x : ℕ) (c : Call) (cs : List Call)
    → count_if (λ y. y == x) (imported (c ∷ cs))
      ≡ count_if (λ y. y == x) (imported (c ∷ [])) + count_if (λ y. y == x) (imported cs)
imported-count x (import i got importer) cs = ground arith
imported-count x (drop i) cs = omega arith
imported-count x (move i j) cs = omega arith

held-run :
    (x : ℕ) (cs : List Call) (s : Store)
    → All (InRange (length s)) cs
    → releases x (run cs s).0 + held x (run cs s).1
      ≡ held x s + count_if (λ y. y == x) (imported cs)
held-run x [] s r = omega arith
held-run x (c ∷ cs) s r =
    let first = call c s in
    let p = held-call x c s r.0 in
    let q = held-run x cs first.1 (rw (length-call c s) r.1) in
    let a = count_if-append {0} (λ y. y.1 == x) first.0 (run cs first.1).0 in
    let b = imported-count x c cs in omega arith

-- The destructors of all buffers.
abbrev pub destroy_all : Store → List Release
destroy_all [] = []
destroy_all (b ∷ s) = (clear b).0 ++ destroy_all s

destroy_all-held : (x : ℕ) (s : Store) → releases x (destroy_all s) ≡ held x s
destroy_all-held x [] = refl
destroy_all-held x (b ∷ s) =
    let a = count_if-append {0} (λ y. y.1 == x) (clear b).0 (destroy_all s) in
    let p = (clear-holds x b).0 in let q = destroy_all-held x s in omega arith

-- Whatever imports, clears and moves, also of a buffer to itself, are made on a set of buffers that
-- are there: with the destructors of the buffers in the end, every buffer object is released exactly
-- as often as an import has given it, beside what the buffers held in the beginning.
pub run-releases :
    (x : ℕ) (cs : List Call) (s : Store)
    → All (InRange (length s)) cs
    → releases x (run cs s).0 + releases x (destroy_all (run cs s).1)
      ≡ releases x (destroy_all s) + count_if (λ y. y == x) (imported cs)
run-releases x cs s r =
    let p = held-run x cs s r in
    let q = destroy_all-held x s in let t = destroy_all-held x (run cs s).1 in omega arith
