-- ===== src/Vm/Variadic.antt =====
-- Functions of src/vm/core.c that take any number of arguments: push_varg and su_vector.
use saurus.Base.{
  ℕ, zero, suc, ◌+◌, ◌-◌, ◌≤◌, ◌<◌, ◌≡◌, refl, sym, subst, true, List, [], ◌∷◌, ◌++◌, append_assoc,
  append-nil, length, length-append, length-reverse, take, drop, reverse, le→leb, lt→ltb, ok, fetch,
  fetch-lt, negsuc, int_bound, arith,
}
use saurus.Reader.Stream.{length-drop}
use saurus.Vector.{Vector, vector_create_empty}
use saurus.Vector.Shape.{Represents}
use saurus.Vector.Push.{vector_create_empty-Represents, vector_push-Represents}
use saurus.Vm.{Value, object, push_value, su_pop, stack_size}
use saurus.Vm.Api.{su_make_vector, push-ok}
use saurus.Vm.Calls.{take_arguments, call_function, call_value, op_call}
use saurus.Vm.Closures.{push_all, push_varg}
use saurus.Vm.Natives.{vector}
use saurus.Vm.State.{Function, Machine, Platform, max_calls, su_function, su_vector}

module _ {N : Type 0} where
  push_all-Represents :
      (v : Vector (Value N)) (xs vs : List (Value N))
      → Represents v xs
      → length xs + length vs < int_bound
      → (v' : Vector (Value N)) × (push_all v vs ≡ ok v') × Represents v' (xs ++ vs)
  unfolding push_all
  push_all-Represents v xs [] r small = (v, refl, subst (Represents v) (sym (append-nil xs)) r)
  push_all-Represents v xs (x ∷ vs) r small =
      let (v₁, pushed, r₁) = vector_push-Represents x r (omega (arith, small)) in
      let (v₂, rest, r₂) =
        push_all-Represents v₁ (xs ++ x ∷ []) vs r₁
          (omega (arith, small, length-append xs (x ∷ []))) in
      (v₂, rw pushed rest, subst (Represents v₂) (append_assoc xs (x ∷ []) vs) r₂)

  -- The last `num` values, in the order in which they were pushed.
  abbrev pub arguments : List (Value N) → (num : ℕ) → List (Value N)
  arguments stack num = reverse (take num stack)

  length-take_all : (n : ℕ) (xs : List (Value N)) → length (take n xs) ≤ length xs
  length-take_all zero xs = omega arith
  length-take_all (suc n) [] = omega arith
  length-take_all (suc n) (x ∷ xs) = omega (arith, length-take_all n xs)

  arguments-Represents :
      (stack : List (Value N)) (num : ℕ)
      → length stack ≤ stack_size
      → (v : Vector (Value N)) × (push_all vector_create_empty (arguments stack num) ≡ ok v)
        × Represents v (arguments stack num)
  arguments-Represents stack num fits =
      let few : length (arguments stack num) ≤ length stack =
        subst (λ k. k ≤ length stack) (sym (length-reverse (take num stack)))
          (length-take_all num stack) in
      push_all-Represents vector_create_empty [] (arguments stack num)
        vector_create_empty-Represents (omega (arith, fits, few))

module _ {N : Type 0} (platform : Platform N) where
  -- `OP_CALL` of a closure that takes any number of arguments ends, with room for a frame and for its upvalues: the
  -- closure starts with a new vector, of the arguments in their order, in their place, and its upvalues above it.
  pub op_call-gathers :
      (m : Machine N) (num p n : ℕ) (func : Function N)
      → length m.stack ≤ stack_size
      → length m.frames < max_calls
      → fetch m.stack num ≡ ok (object su_function p)
      → fetch m.heap.functions p ≡ ok func
      → func.narg ≡ negsuc n
      → length m.stack + 1 + length func.upvalues ≤ stack_size + num
      → (vec : Vector (Value N)) × Represents vec (arguments m.stack num)
        × (op_call platform m num
            ≡ ok (record {
              pc = 0;
              narg = m.narg;
              stack =
                  reverse func.upvalues
                  ++ object su_vector (length m.heap.vectors) ∷ drop num m.stack;
              frames =
                  record {
                    func = m.func;
                    stack_top = length m.stack - num - 1;
                    ret_addr = m.pc + 1;
                  }
                  ∷ m.frames;
              func = p;
              heap = record m.heap { vectors = m.heap.vectors ++ vec ∷ [] };
            }))
  unfolding op_call call_value call_function take_arguments push_varg su_pop push_value
  op_call-gathers m num p n func fits free callee found any room =
      let (vec, made, r) = arguments-Represents m.stack num fits in
      let lt : num < length m.stack = fetch-lt m.stack num _ callee in
      let left = length-drop num m.stack in
      (
        vec,
        r,
        rw
            (
              callee,
              lt→ltb (length m.frames) max_calls free,
              found,
              any,
              le→leb num (length m.stack) (omega (arith, lt)),
              made,
              lt→ltb (length (drop num m.stack)) stack_size (omega (arith, room, left, lt)),
              le→leb (suc (length (drop num m.stack)) + length func.upvalues) stack_size
                  (omega (arith, room, left, lt)),
            )
            refl,
      )

  -- The native `vector`, with room for its result, returns a new vector of its arguments in their order.
  pub vector-Represents :
      (m : Machine N) (num : ℕ)
      → num ≤ length m.stack
      → length m.stack < stack_size
      → (vec : Vector (Value N)) × Represents vec (arguments m.stack num)
        × (vector m num
            ≡ ok (
              record m {
                stack = object su_vector (length m.heap.vectors) ∷ m.stack;
                heap = record m.heap { vectors = m.heap.vectors ++ vec ∷ [] };
              },
              true,
            ))
  unfolding vector su_make_vector
  vector-Represents m num given room =
      let (vec, made, r) = arguments-Represents m.stack num (omega (arith, room)) in
      (
        vec,
        r,
        rw
            (
              le→leb num (length m.stack) given,
              made,
              push-ok (record m { heap = record m.heap { vectors = m.heap.vectors ++ vec ∷ [] } })
                  (object su_vector (length m.heap.vectors)) room,
            )
            refl,
      )
