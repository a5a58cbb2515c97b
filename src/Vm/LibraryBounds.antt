-- ===== src/Vm/LibraryBounds.antt =====
-- The native functions on sequences and vectors of src/vm/libseq.c keep the stack and the frames within their arrays.
use saurus.Base.{
  ℕ, ◌+◌, ◌-◌, Bool, [], ◌∷◌, length, take, reverse, leb, ◌==◌, Run, fetch, pos, negsuc, Ensures,
  ok-Ensures, raise-Ensures, bind-Ensures, if-Ensures, assert-Ensures, not_implemented, no_sequence,
  arith,
}
use saurus.Vm.{Value, nil, boolean, number, object, push_value}
use saurus.Vm.Api.{
  push, as_vector, as_number, su_copy, su_vector_length, su_make_vector, su_vector_push,
  su_vector_index, su_vector_set, su_vector_pop, count_of, pop_times,
}
use saurus.Reader.Stream.{length-drop}
use saurus.Vector.{vector_create_empty, vector_index, vector_set}
use saurus.Vm.Closures.{push_all}
use saurus.Vm.Arguments.{stk, su_type, su_check_arguments}
use saurus.Vm.CallBounds.{InBounds, pushed_fits}
use saurus.Vm.Natives.{
  with_value, vector, native_vector_length, native_vector_index, native_vector_set,
  native_vector_push, native_vector_pop,
}
use saurus.Vm.Sequences.{
  native_seq, native_list, native_cons, native_first, native_rest, su_list, su_cons, su_first,
  su_rest, su_seq_of, seq_of, push_seq, push_rest, first_of, as_seq,
}
use saurus.Vm.State.{
  su_nil, su_number, su_vector, su_map, su_string, su_seq, Heap, Machine, Platform, SeqObject,
  cell_object, vector_iterator, string_iterator,
}

module _ {N : Type 0} where
  -- What a native function that returns leaves.
  abbrev pub Returned : Machine N × Bool → Type 0
  Returned r = InBounds r.0

  abbrev pub Keeps : (Machine N → ℕ → Run (Machine N × Bool)) → Type 0
  Keeps f = (m : Machine N) (narg : ℕ) → InBounds m → Ensures Returned (f m narg)

  -- A push onto a machine with the stack and the frames of one in bounds.
  pub push-InBounds : (m : Machine N) (v : Value N) → InBounds m → Ensures InBounds (push m v)
  unfolding push
  push-InBounds m v b = bind-Ensures InBounds (push_value m.stack v) _ λ stack pushed.
      ok-Ensures InBounds _ (record {
        stack_fits = pushed_fits m.stack stack v b.stack_fits pushed;
        frames_fit = b.frames_fit;
      })

  pub with_heap : (m : Machine N) (heap : Heap N) → InBounds m → InBounds (record m { heap = heap })
  with_heap m heap b = record { stack_fits = b.stack_fits; frames_fit = b.frames_fit }

  pub value-Returned : (r : Run (Machine N)) → Ensures InBounds r → Ensures Returned (with_value r)
  value-Returned r e = bind-Ensures Returned r _ λ m ran. ok-Ensures Returned _ (e.holds m ran)

  push_seq-InBounds :
      (m : Machine N) (o : SeqObject N) (t : ℕ) → InBounds m → Ensures InBounds (push_seq m o t)
  push_seq-InBounds m o t b = push-InBounds _ _ (with_heap m _ b)

  seq_of-InBounds : (m : Machine N) (v : Value N) → InBounds m → Ensures InBounds (seq_of m v)
  seq_of-InBounds m nil b = raise-Ensures InBounds no_sequence
  seq_of-InBounds m (boolean x) b = raise-Ensures InBounds no_sequence
  seq_of-InBounds m (number n) b = raise-Ensures InBounds no_sequence
  seq_of-InBounds m (object t p) b =
      if-Ensures InBounds (t == su_vector) _ _
        (λ _. bind-Ensures InBounds (fetch m.heap.vectors p) _ λ vec found.
          if-Ensures InBounds (vec.cnt == 0) _ _ (λ _. push-InBounds m nil b)
            (push_seq-InBounds m _ _ b))
        (if-Ensures InBounds (t == su_map) _ _ (λ _. raise-Ensures InBounds not_implemented)
          (if-Ensures InBounds (t == su_string) _ _
            (λ _. bind-Ensures InBounds (fetch m.heap.string_objects p) _ λ str found.
              if-Ensures InBounds (leb (length str.str) 1) _ _ (λ _. push-InBounds m nil b)
                (push_seq-InBounds m _ _ b))
            (if-Ensures InBounds (su_type {N = N} (object t p) == su_seq) _ _
              (λ _. push-InBounds m _ b) (raise-Ensures InBounds no_sequence))))

  push_rest-InBounds :
      (m : Machine N) (q : SeqObject N) → InBounds m → Ensures InBounds (push_rest m q)
  unfolding push_rest
  push_rest-InBounds m (cell_object first rest) b = push-InBounds m rest b
  push_rest-InBounds m (vector_iterator obj idx) b =
      bind-Ensures InBounds (fetch m.heap.vectors obj) _ λ vec found.
        if-Ensures InBounds (idx + 1 == vec.cnt) _ _ (λ _. push-InBounds m nil b)
          (push_seq-InBounds m _ _ b)
  push_rest-InBounds m (string_iterator obj idx) b = record { holds = λ m' e. absurd (cc) }

  pub seq-Keeps : Keeps native_seq
  unfolding native_seq su_seq_of
  seq-Keeps m narg b =
      bind-Ensures Returned (su_check_arguments m (pos 1) (su_nil ∷ [])) _ λ u checked.
        value-Returned _ (bind-Ensures InBounds (stk m 1) _ λ v top. seq_of-InBounds m v b)

  pub list-Keeps : Keeps native_list
  unfolding native_list su_list
  list-Keeps m narg b =
      if-Ensures Returned (narg == 0) _ _ (λ _. ok-Ensures Returned _ b)
        (value-Returned _ (
          assert-Ensures InBounds (leb narg (length m.stack)) _
            λ given. push-InBounds _ _ (with_heap m _ b)))

  pub cons-Keeps : Keeps native_cons
  unfolding native_cons su_cons
  cons-Keeps m narg b =
      bind-Ensures Returned (su_check_arguments m (pos 2) (su_nil ∷ su_nil ∷ [])) _ λ u checked.
        value-Returned _ (
          bind-Ensures InBounds (stk m 1) _
            λ first top. bind-Ensures InBounds (stk m 2) _ λ rest below. push_seq-InBounds m _ _ b)

  pub first-Keeps : Keeps native_first
  unfolding native_first su_first
  first-Keeps m narg b =
      bind-Ensures Returned (su_check_arguments m (pos 1) (su_seq ∷ [])) _ λ u checked.
        value-Returned _ (
          bind-Ensures InBounds (stk m 1) _ λ v top.
            bind-Ensures InBounds (as_seq m.heap v) _
              λ q found. bind-Ensures InBounds (first_of m.heap q) _ λ x got. push-InBounds m x b)

  pub rest-Keeps : Keeps native_rest
  unfolding native_rest su_rest
  rest-Keeps m narg b =
      bind-Ensures Returned (su_check_arguments m (pos 1) (su_seq ∷ [])) _ λ u checked.
        value-Returned _ (
          bind-Ensures InBounds (stk m 1) _
            λ v top. bind-Ensures InBounds (as_seq m.heap v) _ λ q found. push_rest-InBounds m q b)

  pub vector-Keeps : Keeps vector
  unfolding vector su_make_vector
  vector-Keeps m narg b = value-Returned _ (
      assert-Ensures InBounds (leb narg (length m.stack)) _ λ given.
        bind-Ensures InBounds (push_all vector_create_empty (reverse (take narg m.stack))) _
          λ vec made. push-InBounds _ _ (with_heap m _ b))

  pub vector_length-Keeps : Keeps native_vector_length
  unfolding native_vector_length
  vector_length-Keeps m narg b =
      bind-Ensures Returned (su_check_arguments m (pos 1) (su_vector ∷ [])) _
        λ u checked. bind-Ensures Returned (su_vector_length m 1) _ λ n got. ok-Ensures Returned _ b

  pub vector_push-Keeps : Keeps native_vector_push
  unfolding native_vector_push su_vector_push
  vector_push-Keeps m narg b =
      bind-Ensures Returned (su_check_arguments m (negsuc 0) (su_vector ∷ [])) _ λ u checked.
        value-Returned _ (
          bind-Ensures InBounds (stk m narg) _ λ v there.
            if-Ensures InBounds (narg - 1 == 0) _ _ (λ _. push-InBounds m v b)
              (bind-Ensures InBounds (as_vector m.heap v) _ λ vec found.
                assert-Ensures InBounds (leb (narg - 1) (length m.stack)) _ λ given.
                  bind-Ensures InBounds (push_all vec (reverse (take (narg - 1) m.stack))) _
                    λ vec' made. push-InBounds _ _ (with_heap m _ b)))

  copy-InBounds : (m : Machine N) (k : ℕ) → InBounds m → Ensures InBounds (su_copy m k)
  unfolding su_copy
  copy-InBounds m k b = bind-Ensures InBounds (stk m k) _ λ v there. push-InBounds m v b

module _ {N : Type 0} (platform : Platform N) where
  pub vector_index-Keeps : Keeps (native_vector_index platform)
  unfolding native_vector_index su_vector_index
  vector_index-Keeps m narg b =
      bind-Ensures Returned (su_check_arguments m (pos 2) (su_vector ∷ su_number ∷ [])) _
        λ u checked.
          bind-Ensures Returned (su_copy m 1) _
            λ m' copied. value-Returned _ (replaced m' ((copy-InBounds m 1 b).holds m' copied))
    where
      replaced : (m' : Machine N) → InBounds m' → Ensures InBounds (su_vector_index platform m' 3)
      replaced m' b' = bind-Ensures InBounds (stk m' 3) _ λ v there.
          bind-Ensures InBounds (as_vector m'.heap v) _ λ vec found.
            bind-Ensures InBounds (stk m' 1) _ λ idx top.
              bind-Ensures InBounds (as_number idx) _ λ n is_number.
                bind-Ensures InBounds (platform.to_int n) _ λ i is_int.
                  bind-Ensures InBounds (vector_index vec i) _ λ x got.
                    ok-Ensures InBounds _ (record {
                      stack_fits = omega (arith, b'.stack_fits, length-drop 1 m'.stack);
                      frames_fit = b'.frames_fit;
                    })

  pub vector_set-Keeps : Keeps (native_vector_set platform)
  unfolding native_vector_set su_vector_set
  vector_set-Keeps m narg b =
      bind-Ensures Returned (su_check_arguments m (pos 3) (su_vector ∷ su_number ∷ su_nil ∷ [])) _
        λ u checked. bind-Ensures Returned (su_copy m 2) _ λ m' copied.
          bind-Ensures Returned (su_copy m' 2) _ λ m'' copied'. value-Returned _ (
            replaced m''
              ((copy-InBounds m' 2 ((copy-InBounds m 2 b).holds m' copied)).holds m'' copied'))
    where
      replaced : (m' : Machine N) → InBounds m' → Ensures InBounds (su_vector_set platform m' 5)
      replaced m' b' = bind-Ensures InBounds (stk m' 5) _ λ v there.
          bind-Ensures InBounds (as_vector m'.heap v) _ λ vec found.
            bind-Ensures InBounds (stk m' 2) _ λ idx below.
              bind-Ensures InBounds (as_number idx) _ λ n is_number.
                bind-Ensures InBounds (platform.to_int n) _ λ i is_int.
                  bind-Ensures InBounds (stk m' 1) _ λ x top.
                    bind-Ensures InBounds (vector_set vec i x) _ λ vec' made.
                      ok-Ensures InBounds _ (record {
                        stack_fits = omega (arith, b'.stack_fits, length-drop 2 m'.stack);
                        frames_fit = b'.frames_fit;
                      })

  pub vector_pop-Keeps : Keeps (native_vector_pop platform)
  unfolding native_vector_pop su_vector_pop
  vector_pop-Keeps m narg b =
      bind-Ensures Returned (su_check_arguments m (pos 2) (su_vector ∷ su_number ∷ [])) _
        λ u checked. value-Returned _ (
          bind-Ensures InBounds (stk m 1) _ λ count top.
            bind-Ensures InBounds (as_number count) _ λ n is_number.
              bind-Ensures InBounds (platform.to_int n) _ λ i is_int.
                bind-Ensures InBounds (stk m 2) _ λ v below.
                  if-Ensures InBounds (count_of platform i == 0) _ _ (λ _. push-InBounds m v b)
                    (bind-Ensures InBounds (as_vector m.heap v) _ λ vec found.
                      bind-Ensures InBounds (pop_times (count_of platform i) vec) _
                        λ vec' popped. push-InBounds _ _ (with_heap m _ b)))
