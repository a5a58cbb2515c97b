-- ===== src/Vm/NativeVectors.antt =====
-- The native functions vector_set and vector_pop of src/vm/libseq.c, on vectors that represent lists.
use saurus.Base.{
  ℕ, zero, suc, ◌+◌, ◌≤◌, ◌<◌, ◌≡◌, ◌⊎◌, inl, inr, refl, ap, sym, ◌∙◌, true, List, [], ◌∷◌, ◌++◌,
  append_assoc, append-nil, length, length-append, set, ok, raise, fetch, pos, ℤ,
  index_out_of_bounds, Bool-cases, ==_iff, false, ◌==◌, pop_empty_vector, Run, fault, Bool, ◌>>=◌,
  arith,
}
use saurus.Vector.{Vector, vector_set}
use saurus.Vector.Bounds.{vector_pop-last, vector_set-element}
use saurus.Vector.Index.{element}
use saurus.Vector.Shape.{Represents}
use saurus.Vm.{Value, number, object, stack_size}
use saurus.Vm.Api.{push-ok, su_copy, su_vector_set, su_vector_pop, pop_times, count_of, push_vector}
use saurus.Vm.Arguments.{checked}
use saurus.Vm.Natives.{native_vector_set, native_vector_pop}
use saurus.Vm.State.{Machine, Platform, su_vector, su_number, su_nil}

module _ {N : Type 0} where
  -- Popping `n` times.
  pop_times-Represents :
      (n : ℕ) {vec : Vector (Value N)} {xs : List (Value N)}
      → Represents vec xs
      → ((length xs < n) × (pop_times n vec ≡ raise pop_empty_vector))
        ⊎ ((zs dropped : List (Value N)) × (xs ≡ zs ++ dropped)
            × (length dropped ≡ n)
            × (vec' : Vector (Value N)) × (pop_times n vec ≡ ok vec')
            × Represents vec' zs)
  unfolding pop_times
  pop_times-Represents zero {vec} {xs} r = inr (xs, [], sym (append-nil xs), refl, vec, refl, r)
  pop_times-Represents (suc n) {vec} {xs} r = elim (vector_pop-last r) [
    | inl (none_left, run) ↦ inl (omega (arith, ap length none_left), rw run refl)
    | inr (ys, y, parts, vec', run, r') ↦ elim (pop_times-Represents n r') [
      | inl (short, run') ↦
          inl (omega (arith, short, ap length parts, length-append ys (y ∷ [])), rw run run')
      | inr (zs, dropped, parts', count, vec'', run', r'') ↦ inr (
        zs,
        dropped ++ y ∷ [],
        parts ∙ ap (λ l. l ++ y ∷ []) parts' ∙ append_assoc zs dropped (y ∷ []),
        length-append dropped (y ∷ []) ∙ omega (arith, count),
        vec'',
        rw run run',
        r'',
      )
    ]
  ]

  -- The machine with one more vector in its heap and on its stack.
  abbrev pub with_new_vector : Machine N → Vector (Value N) → Machine N
  with_new_vector m vec = record m {
    stack = object su_vector (length m.heap.vectors) ∷ m.stack;
    heap = record m.heap { vectors = m.heap.vectors ++ vec ∷ [] };
  }

module _ {N : Type 0} (m : Machine N) where
  abbrev pub Ended : Type 0
  Ended = Run (Machine N × Bool)

  -- The end of a native function that made a vector.
  unfoldable pub returned : Vector (Value N) → Ended
  returned v = ok (with_new_vector m v, true)

  made_result :
      (x : Run (Vector (Value N)))
      → ◌≡◌ {A = Ended}
          ((x >>= λ v. ok (with_new_vector m v)) >>= λ m'. ok (m', true))
          (x >>= returned)
  unfolding returned
  made_result (ok v) = refl
  made_result (raise e) = refl
  made_result fault = refl

  pub pushed_result :
      (x : Run (Vector (Value N)))
      → length m.stack < stack_size
      → ◌≡◌ {A = Ended} ((x >>= λ v. push_vector m v) >>= λ m'. ok (m', true)) (x >>= returned)
  unfolding returned
  pushed_result (ok v) room =
      rw
        (push-ok (record m { heap = record m.heap { vectors = m.heap.vectors ++ v ∷ [] } })
          (object su_vector (length m.heap.vectors)) room)
        refl
  pushed_result (raise e) room = refl
  pushed_result fault room = refl

module _ {N : Type 0} (platform : Platform N) (m : Machine N) (p : ℕ) (vec : Vector (Value N))
    (xs : List (Value N)) (there : fetch m.heap.vectors p ≡ ok vec) (r : Represents vec xs) (n : N)
    (i : ℤ) (converted : platform.to_int n ≡ ok i) (rest : List (Value N)) where
  set_run :
      (val : Value N)
      → m.narg ≡ 3
      → m.stack ≡ val ∷ number n ∷ object su_vector p ∷ rest
      → length m.stack + 2 ≤ stack_size
      → native_vector_set platform m 3 ≡ (vector_set vec i val >>= returned m)
  unfolding native_vector_set su_copy su_vector_set
  set_run val given s room =
      rw
        (
          checked m 3 (su_vector ∷ su_number ∷ su_nil ∷ []) given,
          ap (λ l. fetch l 1) s,
          push-ok m (number n) (omega (arith, room)),
          ap (λ l. fetch l 0) s,
          push-ok (record m { stack = number n ∷ m.stack }) val (omega (arith, room)),
          ap (λ l. fetch l 2) s,
          there,
          converted,
        )
        (made_result m (vector_set vec i val))

  -- `vector-set` with an index that converts to an int, on a vector that represents a list, with room for two
  -- copies on the stack: where the list has no element it raises the error. Everywhere else it adds one new
  -- vector to the heap and on top of the stack, which is as it was below, and the new vector represents the list
  -- with that element replaced.
  pub native_vector_set-element :
      (val : Value N)
      → m.narg ≡ 3
      → m.stack ≡ val ∷ number n ∷ object su_vector p ∷ rest
      → length m.stack + 2 ≤ stack_size
      → ((element xs i ≡ raise index_out_of_bounds)
          × (native_vector_set platform m 3 ≡ raise index_out_of_bounds))
        ⊎ ((j : ℕ) × (i ≡ pos j)
            × (j < length xs)
            × (vec' : Vector (Value N)) × (native_vector_set platform m 3
                ≡ ok (
                  record m {
                    stack = object su_vector (length m.heap.vectors) ∷ m.stack;
                    heap = record m.heap { vectors = m.heap.vectors ++ vec' ∷ [] };
                  },
                  true,
                ))
            × Represents vec' (set xs j val))
  unfolding returned
  native_vector_set-element val given s room = elim (vector_set-element val r i) [
    | inl (outside, run) ↦ inl (outside, set_run val given s room ∙ ap (λ x. x >>= returned m) run)
    | inr (j, e, lt, vec', run, r') ↦
        inr (j, e, lt, vec', set_run val given s room ∙ ap (λ x. x >>= returned m) run, r')
  ]

  pop_run :
      m.narg ≡ 2
      → m.stack ≡ number n ∷ object su_vector p ∷ rest
      → length m.stack < stack_size
      → (count_of platform i == 0) ≡ false
      → native_vector_pop platform m 2 ≡ (pop_times (count_of platform i) vec >>= returned m)
  unfolding native_vector_pop su_vector_pop
  pop_run given s room some_count =
      rw
        (
          checked m 2 (su_vector ∷ su_number ∷ []) given,
          ap (λ l. fetch l 0) s,
          converted,
          ap (λ l. fetch l 1) s,
          some_count,
          there,
        )
        (pushed_result m (pop_times (count_of platform i) vec) room)

  pop_none :
      m.narg ≡ 2
      → m.stack ≡ number n ∷ object su_vector p ∷ rest
      → length m.stack < stack_size
      → (count_of platform i == 0) ≡ true
      → native_vector_pop platform m 2
        ≡ ok (record m { stack = object su_vector p ∷ m.stack }, true)
  unfolding native_vector_pop su_vector_pop
  pop_none given s room no_count =
      rw
        (
          checked m 2 (su_vector ∷ su_number ∷ []) given,
          ap (λ l. fetch l 0) s,
          converted,
          ap (λ l. fetch l 1) s,
          no_count,
          push-ok m (object su_vector p) room,
        )
        refl

  -- `vector-pop` with a count that converts to an int, on a vector that represents a list, with room for the
  -- result on the stack: with a count of zero or less it pushes the vector itself, and with a count above the
  -- length of the list it raises the error. Otherwise it adds one new vector to the heap and on top of the stack,
  -- which is as it was below, and the new vector represents the list without as many last elements.
  pub native_vector_pop-Represents :
      m.narg ≡ 2
      → m.stack ≡ number n ∷ object su_vector p ∷ rest
      → length m.stack < stack_size
      → ((count_of platform i ≡ 0)
          × (native_vector_pop platform m 2
              ≡ ok (record m { stack = object su_vector p ∷ m.stack }, true)))
        ⊎ ((length xs < count_of platform i)
            × (native_vector_pop platform m 2 ≡ raise pop_empty_vector))
        ⊎ ((zs dropped : List (Value N)) × (xs ≡ zs ++ dropped)
            × (length dropped ≡ count_of platform i)
            × (0 < count_of platform i)
            × (vec' : Vector (Value N)) × (native_vector_pop platform m 2
                ≡ ok (
                  record m {
                    stack = object su_vector (length m.heap.vectors) ∷ m.stack;
                    heap = record m.heap { vectors = m.heap.vectors ++ vec' ∷ [] };
                  },
                  true,
                ))
            × Represents vec' zs)
  unfolding returned
  native_vector_pop-Represents given s room = elim (Bool-cases (count_of platform i == 0)) [
    | inl k ↦ inl ((==_iff (count_of platform i) 0).0 k, pop_none given s room k)
    | inr k ↦ elim (pop_times-Represents (count_of platform i) r) [
      | inl (short, run) ↦
          inr (inl (short, pop_run given s room k ∙ ap (λ x. x >>= returned m) run))
      | inr (zs, dropped, parts, count, vec', run, r') ↦ inr (
          inr (
            zs,
            dropped,
            parts,
            count,
            ground (arith, k),
            vec',
            pop_run given s room k ∙ ap (λ x. x >>= returned m) run,
            r',
          ))
    ]
  ]
