-- ===== src/Seq.antt =====
-- The sequences of src/vm/seq.c that a program can make: lists of cells, and iterators.
pub mod Walk
use saurus.Base.{
  ℕ, zero, suc, ◌+◌, Bool, true, false, List, [], ◌∷◌, length, leb, ◌==◌, if◌then◌else◌, Run, ok,
  fault, fetch, ◌>>=◌, pos,
}
use saurus.Vector.{Vector, vector_index}

-- A value as the rest of a sequence: nil, a value that is no sequence, a cell, an iterator over a vector,
-- or one over a string, which is its bytes.
pub data SeqValue {ℓ} (A : Type ℓ) : Type ℓ where
  seq_nil : SeqValue A
  atom : A → SeqValue A
  cell_seq : (first : A) → (rest : SeqValue A) → SeqValue A
  it_vector : (obj : Vector A) → (idx : ℕ) → SeqValue A
  it_string : (obj : List ℕ) → (idx : ℕ) → SeqValue A

module _ {ℓ} {A : Type ℓ} where
  abbrev pub cell_create : A → SeqValue A → SeqValue A
  cell_create first rest = cell_seq first rest

  -- The loop of `cell_create_array`, from `i - 1` down to 0.
  unfoldable pub cell_loop : (i : ℕ) → List A → SeqValue A → Run (SeqValue A)
  cell_loop zero array tmp = ok tmp
  cell_loop (suc i) array tmp = fetch array i >>= λ v. cell_loop i array (cell_seq v tmp)

  unfoldable pub cell_create_array : List A → Run (SeqValue A)
  unfolding cell_loop
  cell_create_array array = cell_loop (length array) array seq_nil

  unfoldable pub it_create_vector : Vector A → SeqValue A
  it_create_vector vec = if vec.cnt == 0 then seq_nil else it_vector vec 0

  unfoldable pub it_create_string : List ℕ → SeqValue A
  it_create_string str = if leb (length str) 1 then seq_nil else it_string str 0

  -- `seq_first` and `seq_rest`, through the class of the sequence. An iterator over a string has the
  -- class of those over vectors, so the string is read as a vector, which is undefined, as is a call
  -- on a value that is no sequence.
  unfoldable pub seq_first : SeqValue A → Run A
  unfolding vector_index
  seq_first seq_nil = fault
  seq_first (atom a) = fault
  seq_first (cell_seq first rest) = ok first
  seq_first (it_vector obj idx) = vector_index obj (pos idx)
  seq_first (it_string obj idx) = fault

  unfoldable pub seq_rest : SeqValue A → Run (SeqValue A)
  seq_rest seq_nil = fault
  seq_rest (atom a) = fault
  seq_rest (cell_seq first rest) = ok rest
  seq_rest (it_vector obj idx) =
      ok (if idx + 1 == obj.cnt then seq_nil else it_vector obj (idx + 1))
  seq_rest (it_string obj idx) = fault
