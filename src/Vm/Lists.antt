-- ===== src/Vm/Lists.antt =====
-- The native functions on lists of src/vm/libseq.c: list and cons make what first and rest take apart.
use saurus.Base.{
  fetch-lt, ℕ, ◌≤◌, ◌<◌, ◌≡◌, refl, ap, ◌∙◌, true, List, [], ◌∷◌, length, take, reverse, le→leb,
  ==-ne, ok, fetch, fetch_end, fetch-append_left, arith,
}
use mathlib.Core.List.{reverse_aux}
use saurus.Vm.{Value, nil, object, stack_size}
use saurus.Vm.Api.{push-ok}
use saurus.Vm.Arguments.{checked, cell_seq_type}
use saurus.Vm.Sequences.{
  with_seq, make_cells, su_list, su_first, su_rest, su_cons, first_of, push_rest, native_list,
  native_cons, native_first, native_rest,
}
use saurus.Vm.State.{Heap, Machine, SeqObject, cell_object, su_nil, su_seq}

module _ {N : Type 0} where
  -- The value is a list of cells with these values.
  abbrev pub IsList : Heap N → Value N → List (Value N) → Type 0
  IsList heap v [] = v ≡ nil
  IsList heap v (x ∷ xs) =
      (p : ℕ) × (rest : Value N) × (v ≡ object cell_seq_type p)
      × (fetch heap.seqs p ≡ ok (cell_object x rest))
      × IsList heap rest xs

  with_seq-IsList :
      (heap : Heap N) (o : SeqObject N) (v : Value N) (xs : List (Value N))
      → IsList heap v xs
      → IsList (with_seq heap o) v xs
  with_seq-IsList heap o v [] l = l
  with_seq-IsList heap o v (x ∷ xs) (p, rest, e, there, l) = (
    p,
    rest,
    e,
    fetch-append_left heap.seqs (o ∷ []) p (fetch-lt heap.seqs p _ there) ∙ there,
    with_seq-IsList heap o rest xs l,
  )

  new_cell-IsList :
      (heap : Heap N) (x v : Value N) (xs : List (Value N))
      → IsList heap v xs
      → IsList (with_seq heap (cell_object x v)) (object cell_seq_type (length heap.seqs)) (x ∷ xs)
  new_cell-IsList heap x v xs l = (
    length heap.seqs,
    v,
    refl,
    fetch_end heap.seqs (cell_object x v),
    with_seq-IsList heap (cell_object x v) v xs l,
  )

  make_cells-IsList :
      (heap : Heap N) (vs : List (Value N)) (tmp : Value N) (xs : List (Value N))
      → IsList heap tmp xs
      → IsList (make_cells heap vs tmp).1 (make_cells heap vs tmp).0 (reverse_aux vs xs)
  unfolding make_cells
  make_cells-IsList heap [] tmp xs l = l
  make_cells-IsList heap (v ∷ vs) tmp xs l =
      make_cells-IsList (with_seq heap (cell_object v tmp)) vs
        (object cell_seq_type (length heap.seqs)) (v ∷ xs) (new_cell-IsList heap v tmp xs l)

  -- `list` of one argument and more, with room for its result, returns a list of its arguments in their order.
  pub native_list-IsList :
      (m : Machine N) (num : ℕ)
      → 1 ≤ num
      → num ≤ length m.stack
      → length m.stack < stack_size
      → (m' : Machine N) × (v : Value N) × (native_list m num ≡ ok (m', true))
        × (m'.stack ≡ v ∷ m.stack)
        × IsList m'.heap v (reverse (take num m.stack))
  unfolding native_list su_list
  native_list-IsList m num some_args given room =
      let r = make_cells m.heap (take num m.stack) nil in
      (
        record m { stack = r.0 ∷ m.stack; heap = r.1 },
        r.0,
        rw
            (
              ==-ne num 0 (λ e. omega (arith, e, some_args)),
              le→leb num (length m.stack) given,
              push-ok (record m { heap = r.1 }) r.0 room,
            )
            refl,
        refl,
        make_cells-IsList m.heap (take num m.stack) nil [] refl,
      )

  -- `cons` of a list and a value, in this order, returns the list with the value before it.
  pub native_cons-IsList :
      (m : Machine N) (x v : Value N) (xs below : List (Value N))
      → m.narg ≡ 2
      → m.stack ≡ x ∷ v ∷ below
      → length m.stack < stack_size
      → IsList m.heap v xs
      → (m' : Machine N) × (w : Value N) × (native_cons m 2 ≡ ok (m', true))
        × (m'.stack ≡ w ∷ m.stack)
        × IsList m'.heap w (x ∷ xs)
  unfolding native_cons su_cons
  native_cons-IsList m x v xs below given s room l =
      let w = object cell_seq_type (length m.heap.seqs) in
      let heap = with_seq m.heap (cell_object x v) in
      let first : fetch m.stack 0 ≡ ok x = ap (λ k. fetch k 0) s in
      let rest : fetch m.stack 1 ≡ ok v = ap (λ k. fetch k 1) s in
      (
        record m { stack = w ∷ m.stack; heap = heap },
        w,
        rw
            (
              checked m 2 (su_nil ∷ su_nil ∷ []) given,
              first,
              rest,
              push-ok (record m { heap = heap }) w room,
            )
            refl,
        refl,
        new_cell-IsList m.heap x v xs l,
      )

  -- `first` of a list with a first value returns that value, and `rest` the list of the others. Both leave the
  -- heap as it is.
  pub native_first-native_rest :
      (m : Machine N) (v x : Value N) (xs below : List (Value N))
      → m.narg ≡ 1
      → m.stack ≡ v ∷ below
      → length m.stack < stack_size
      → IsList m.heap v (x ∷ xs)
      → (native_first m 1 ≡ ok (record m { stack = x ∷ m.stack }, true))
        × (r : Value N) × (native_rest m 1 ≡ ok (record m { stack = r ∷ m.stack }, true))
        × IsList m.heap r xs
  unfolding native_first native_rest su_first su_rest first_of push_rest
  native_first-native_rest m v x xs below given s room (p, rest, e, there, l) =
      let top : fetch m.stack 0 ≡ ok (object cell_seq_type p) = ap (λ k. fetch k 0) s ∙ ap ok e in
      (
        rw (checked m 1 (su_seq ∷ []) given, top, there, push-ok m x room) refl,
        rest,
        rw (checked m 1 (su_seq ∷ []) given, top, there, push-ok m rest room) refl,
        l,
      )
