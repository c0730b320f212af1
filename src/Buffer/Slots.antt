-- ===== src/Buffer/Slots.antt =====
-- The store of buffers: what a buffer holds, and the writes that move it (drmhwcomposer.h).
use drm_hwcomposer.Base.{
  ℕ, zero, suc, ◌+◌, ◌<◌, ◌≡◌, refl, sym, ==_iff, ap, ◌∙◌, inl, inr, Option-cases, Bool-cases, ◌==◌,
  false, Option, none, some, List, [], ◌∷◌, if◌then◌else◌, arith, length, count_if,
}
use drm_hwcomposer.Buffer.{HwcBuffer, Release, clear, Store, slot, put, take_over}

abbrev pub holds_part : ℕ → ℕ → Option ℕ → ℕ
holds_part x bo none = 0
holds_part x bo (some i) = if bo == x then 1 else 0

abbrev pub holds : ℕ → HwcBuffer → ℕ
holds x b = holds_part x b.bo b.importer

abbrev pub held : ℕ → Store → ℕ
held x [] = 0
held x (b ∷ s) = holds x b + held x s

abbrev pub releases : ℕ → List Release → ℕ
releases x = count_if (λ r. r.1 == x)

pub slot-put_eq : (i : ℕ) (b : HwcBuffer) (s : Store) → i < length s → slot i (put i b s) ≡ b
unfolding slot put
slot-put_eq i b [] l = absurd (omega arith)
slot-put_eq zero b (c ∷ s) l = refl
slot-put_eq (suc i) b (c ∷ s) l = slot-put_eq i b s (omega arith)

slot-put_ne :
    (i j : ℕ) (b : HwcBuffer) (s : Store) → (j == i) ≡ false → slot j (put i b s) ≡ slot j s
unfolding slot put
slot-put_ne i j b [] n = refl
slot-put_ne zero zero b (c ∷ s) n = absurd (ground arith)
slot-put_ne zero (suc j) b (c ∷ s) n = refl
slot-put_ne (suc i) zero b (c ∷ s) n = refl
slot-put_ne (suc i) (suc j) b (c ∷ s) n = slot-put_ne i j b s (ground arith)

pub length-put : (i : ℕ) (b : HwcBuffer) (s : Store) → length (put i b s) ≡ length s
unfolding put
length-put i b [] = refl
length-put zero b (c ∷ s) = refl
length-put (suc i) b (c ∷ s) = ap suc (length-put i b s)

pub held-put :
    (x i : ℕ) (b : HwcBuffer) (s : Store)
    → i < length s
    → held x (put i b s) + holds x (slot i s) ≡ held x s + holds x b
unfolding slot put
held-put x i b [] l = absurd (omega arith)
held-put x zero b (c ∷ s) l = omega arith
held-put x (suc i) b (c ∷ s) l = ground (arith, held-put x i b s (omega arith))

pub clear-holds :
    (x : ℕ) (b : HwcBuffer) → (releases x (clear b).0 ≡ holds x b) × ((clear b).1.importer ≡ none)
unfolding clear
clear-holds x b = elim (Option-cases b.importer) [
  | inl e ↦ (ground arith, ground arith)
  | inr (i, e) ↦ (ground arith, ground arith)
]

pub holds-empty : (x : ℕ) (b : HwcBuffer) → b.importer ≡ none → holds x b ≡ 0
holds-empty x b e = ap (holds_part x b.bo) e

holds-parts :
    (x : ℕ) (b c : HwcBuffer) → b.importer ≡ c.importer → b.bo ≡ c.bo → holds x b ≡ holds x c
holds-parts x b c e f = λ i. holds_part x (f i) (e i)

held-take_over_ne :
    (x i j : ℕ) (s : Store)
    → (slot i s).importer ≡ none
    → (i == j) ≡ false
    → i < length s
    → j < length s
    → held x (take_over i j s) ≡ held x s
unfolding take_over
held-take_over_ne x i j s free n li lj =
    let b1 = record (slot i s) { importer = (slot j s).importer } in
    let s1 = put i b1 s in
    let e1 : slot j s1 ≡ slot j s = slot-put_ne i j b1 s (ground arith) in
    let l1 = length-put i b1 s in
    let b2 = record (slot j s1) { importer = none } in
    let s2 = put j b2 s1 in
    let l2 = length-put j b2 s1 in
    let b3 = record (slot i s2) { bo = (slot j s2).bo } in
    let e2 : slot i s2 ≡ b1 = slot-put_ne j i b2 s1 n ∙ slot-put_eq i b1 s li in
    let e3 : slot j s2 ≡ b2 = slot-put_eq j b2 s1 (rw l1 lj) in
    let p1 = held-put x i b1 s li in
    let p2 = held-put x j b2 s1 (rw l1 lj) in
    let p3 = held-put x i b3 s2 (rw (l2, l1) li) in
    let q1 = holds-empty x (slot i s) free in
    let q2 = holds-parts x (slot j s1) (slot j s) (ap (λ b. b.importer) e1) (ap (λ b. b.bo) e1) in
    let q3 = holds-parts x (slot i s2) b1 (ap (λ b. b.importer) e2) (ap (λ b. b.bo) e2) in
    let q4 =
      holds-parts x b3 (slot j s) (ap (λ b. b.importer) e2)
        (ap (λ b. b.bo) e3 ∙ ap (λ b. b.bo) e1) in
    omega arith

held-put_empty :
    (x i : ℕ) (b : HwcBuffer) (s : Store)
    → (slot i s).importer ≡ none
    → b.importer ≡ none
    → i < length s
    → held x (put i b s) ≡ held x s
held-put_empty x i b s e f l =
    let p = held-put x i b s l in
    let q1 = holds-empty x (slot i s) e in let q2 = holds-empty x b f in omega arith

held-take_over_eq :
    (x i : ℕ) (s : Store)
    → (slot i s).importer ≡ none
    → i < length s
    → held x (take_over i i s) ≡ held x s
unfolding take_over
held-take_over_eq x i s free li =
    let b1 = slot i s in
    let s1 = put i b1 s in
    let b2 = record (slot i s1) { importer = none } in
    let s2 = put i b2 s1 in
    let b3 = slot i s2 in
    let l1 : i < length s1 = rw (length-put i b1 s) li in
    let l2 : i < length s2 = rw (length-put i b2 s1) l1 in
    let e1 = ap (λ b. b.importer) (slot-put_eq i b1 s li) ∙ free in
    let e2 = ap (λ b. b.importer) (slot-put_eq i b2 s1 l1) in
    held-put_empty x i b3 s2 e2 e2 l2
    ∙ held-put_empty x i b2 s1 e1 refl l1
    ∙ held-put_empty x i b1 s free free li

pub held-take_over :
    (x i j : ℕ) (s : Store)
    → (slot i s).importer ≡ none
    → i < length s
    → j < length s
    → held x (take_over i j s) ≡ held x s
held-take_over x i j s free li lj = elim (Bool-cases (i == j)) [
  | inl e ↦ rw (sym ((==_iff i j).0 e)) (held-take_over_eq x i s free li)
  | inr e ↦ held-take_over_ne x i j s free e li lj
]

pub length-take_over : (i j : ℕ) (s : Store) → length (take_over i j s) ≡ length s
unfolding take_over
length-take_over i j s = length-put i _ _ ∙ length-put j _ _ ∙ length-put i _ s
