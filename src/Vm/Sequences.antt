-- ===== src/Vm/Sequences.antt =====
-- Sequences as values of the machine: cells and iterators of src/vm/seq.c, the functions of src/vm/core.c that
-- make and take them apart, and the native functions of src/vm/libseq.c. `STK(-k)` is written with its `k`.
use saurus.Base.{
  ℕ, ◌+◌, Bool, false, ◌||◌, List, [], ◌∷◌, ◌++◌, length, take, leb, ◌==◌, if◌then◌else◌, Run, ok,
  raise, fault, fetch, ◌>>=◌, ◌>>◌, assert, pos, not_implemented, no_sequence,
}
use saurus.Vector.{vector_index}
use saurus.Vm.{Value, nil, object}
use saurus.Vm.Api.{push}
use saurus.Vm.Arguments.{stk, su_type, su_check_arguments, cell_seq_type, it_seq_type}
use saurus.Vm.Natives.{with_value}
use saurus.Vm.State.{
  Heap, Machine, SeqObject, cell_object, vector_iterator, string_iterator, su_nil, su_string,
  su_vector, su_map, su_seq,
}

module _ {N : Type 0} where
  abbrev pub with_seq : Heap N → SeqObject N → Heap N
  with_seq heap o = record heap { seqs = heap.seqs ++ o ∷ [] }

  -- A new sequence and its type, pushed.
  abbrev pub push_seq : Machine N → SeqObject N → (t : ℕ) → Run (Machine N)
  push_seq m o t = push (record m { heap = with_seq m.heap o }) (object t (length m.heap.seqs))

  -- The loop of `cell_create_array`, from the last value to the first: `tmp` and the heap after it.
  unfoldable pub make_cells : Heap N → List (Value N) → (tmp : Value N) → Value N × Heap N
  make_cells heap [] tmp = (tmp, heap)
  make_cells heap (v ∷ vs) tmp =
      make_cells (with_seq heap (cell_object v tmp)) vs (object cell_seq_type (length heap.seqs))

  unfoldable pub su_list : Machine N → (num : ℕ) → Run (Machine N)
  unfolding make_cells push
  su_list m num = do
    assert (leb num (length m.stack))
    let (seq, heap) = make_cells m.heap (take num m.stack) nil
    push (record m { heap = heap }) seq

  -- `obj.q`
  abbrev pub as_seq : Heap N → Value N → Run (SeqObject N)
  as_seq heap (object t p) =
      if t == cell_seq_type || t == it_seq_type then fetch heap.seqs p else fault
  as_seq heap _ = fault

  -- `seq_first` and `seq_rest`, by the class of the sequence. An iterator over a string has the class of those
  -- over vectors, and the string is read as a vector.
  unfoldable pub first_of : Heap N → SeqObject N → Run (Value N)
  unfolding vector_index
  first_of heap (cell_object first rest) = ok first
  first_of heap (vector_iterator obj idx) =
      fetch heap.vectors obj >>= λ vec. vector_index vec (pos idx)
  first_of heap (string_iterator obj idx) = fault

  unfoldable pub push_rest : Machine N → SeqObject N → Run (Machine N)
  unfolding push
  push_rest m (cell_object first rest) = push m rest
  push_rest m (vector_iterator obj idx) = fetch m.heap.vectors obj >>= λ vec.
      if idx + 1 == vec.cnt
      then push m nil
      else push_seq m (vector_iterator obj (idx + 1)) it_seq_type
  push_rest m (string_iterator obj idx) = fault

  unfoldable pub su_first : Machine N → (k : ℕ) → Run (Machine N)
  unfolding first_of push
  su_first m k = do v ← stk m k; q ← as_seq m.heap v; x ← first_of m.heap q; push m x

  unfoldable pub su_rest : Machine N → (k : ℕ) → Run (Machine N)
  unfolding push_rest
  su_rest m k = do v ← stk m k; q ← as_seq m.heap v; push_rest m q

  -- The first value is on top of the stack, and the rest at `k`.
  unfoldable pub su_cons : Machine N → (k : ℕ) → Run (Machine N)
  unfolding push
  su_cons m k = do
    first ← stk m 1
    rest ← stk m k
    push_seq m (cell_object first rest) cell_seq_type

  -- The object that `su_seq` makes a sequence of.
  abbrev pub seq_of : Machine N → Value N → Run (Machine N)
  seq_of m (object t p) =
      if t == su_vector
      then (fetch m.heap.vectors p >>= λ vec.
          if vec.cnt == 0 then push m nil else push_seq m (vector_iterator p 0) it_seq_type)
      else if t == su_map
      then raise not_implemented
      else if t == su_string
      then (fetch m.heap.string_objects p >>= λ s.
          if leb (length s.str) 1 then push m nil else push_seq m (string_iterator p 0) it_seq_type)
      else if su_type {N = N} (object t p) == su_seq
      then push m (object t p)
      else raise no_sequence
  seq_of m v = raise no_sequence

  unfoldable pub su_seq_of : Machine N → (k : ℕ) → Run (Machine N)
  unfolding push su_type
  su_seq_of m k = stk m k >>= λ v. seq_of m v

  -- src/vm/libseq.c
  unfoldable pub native_seq : Machine N → (narg : ℕ) → Run (Machine N × Bool)
  unfolding su_check_arguments su_seq_of
  native_seq m narg = do su_check_arguments m (pos 1) (su_nil ∷ []); with_value (su_seq_of m 1)

  unfoldable pub native_list : Machine N → (narg : ℕ) → Run (Machine N × Bool)
  unfolding su_list
  native_list m narg = if narg == 0 then ok (m, false) else with_value (su_list m narg)

  unfoldable pub native_cons : Machine N → (narg : ℕ) → Run (Machine N × Bool)
  unfolding su_check_arguments su_cons
  native_cons m narg = do
    su_check_arguments m (pos 2) (su_nil ∷ su_nil ∷ [])
    with_value (su_cons m 2)

  unfoldable pub native_first : Machine N → (narg : ℕ) → Run (Machine N × Bool)
  unfolding su_check_arguments su_first
  native_first m narg = do su_check_arguments m (pos 1) (su_seq ∷ []); with_value (su_first m 1)

  unfoldable pub native_rest : Machine N → (narg : ℕ) → Run (Machine N × Bool)
  unfolding su_check_arguments su_rest
  native_rest m narg = do su_check_arguments m (pos 1) (su_seq ∷ []); with_value (su_rest m 1)
