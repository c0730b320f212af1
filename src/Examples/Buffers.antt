-- ===== src/Examples/Buffers.antt =====
-- Three buffers, of which the first two hold an object.
use drm_hwcomposer.Base.{◌+◌, ◌≡◌, ◌==◌, refl, some, [], ◌∷◌, List, pos, neg, count_if, arith}
use drm_hwcomposer.Buffer.{
  Store, new_buffer, clear, import_object, slot, put, move_assign, take_over,
}
use drm_hwcomposer.Buffer.Slots.{releases}
use drm_hwcomposer.Buffer.Ownership.{
  Call, import, drop, move, run, imported, destroy_all, run-releases,
}

abbrev buffers : Store
buffers =
    record { bo = 7; importer = some 1 } ∷ record { bo = 8; importer = some 1 } ∷ new_buffer ∷ []

-- An import over an object, one that fails, a move to the third buffer, and one of it to itself.
abbrev calls : List Call
calls = import 0 (pos 0, 9) 1 ∷ import 1 (neg 5, 9) 1 ∷ move 2 0 ∷ move 2 2 ∷ drop 1 ∷ []

-- The move of the third buffer to itself releases what it holds.
released-calls : (run calls buffers).0 ≡ (1, 7) ∷ (1, 9) ∷ (1, 8) ∷ []
unfolding import_object clear slot put move_assign take_over
released-calls = refl

run-releases_example :
    releases 9 (run calls buffers).0 + releases 9 (destroy_all (run calls buffers).1)
    ≡ releases 9 (destroy_all buffers) + count_if (λ y. y == 9) (imported calls)
run-releases_example = run-releases 9 calls buffers (
  omega arith,
  (omega arith, ((omega arith, omega arith), ((omega arith, omega arith), (omega arith, tt)))),
)
