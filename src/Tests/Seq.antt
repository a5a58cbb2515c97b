-- ===== src/Tests/Seq.antt =====
-- Sequences of src/vm/seq.c over a small vector and a small array.
use saurus.Base.{ℕ, ◌≡◌, refl, [], ◌∷◌, ok, fault, inl, arith}
use saurus.Vector.{Vector}
use saurus.Vector.Shape.{flat, Represents}
use saurus.Seq.{SeqValue, cell_create_array, it_create_vector, it_create_string, seq_first}
use saurus.Seq.Walk.{walk, walk-it_create_vector, walk-cell_create_array}

abbrev three : Vector ℕ
three = record { cnt = 3; depth = 0; root = []; tail = 7 ∷ 8 ∷ 9 ∷ [] }

three-Represents : Represents three (7 ∷ 8 ∷ 9 ∷ [])
unfolding flat
three-Represents = record {
  count = refl;
  contents = refl;
  tail_fits = omega arith;
  shape = inl refl;
}

walk_vector_example : walk 3 (it_create_vector three) ≡ ok (7 ∷ 8 ∷ 9 ∷ [])
walk_vector_example = walk-it_create_vector three-Represents 3 (omega arith)

walk_cells_example :
    (s : SeqValue ℕ) × (cell_create_array (7 ∷ 8 ∷ []) ≡ ok s) × (walk 2 s ≡ ok (7 ∷ 8 ∷ []))
walk_cells_example = walk-cell_create_array (7 ∷ 8 ∷ []) 2 (omega arith)

-- The first of a sequence over a string reads the string as a vector.
string_first : seq_first (it_create_string {A = ℕ} (104 ∷ 105 ∷ 0 ∷ [])) ≡ fault
unfolding seq_first it_create_string
string_first = refl
