-- ===== src/Vm/NativePush.antt =====
-- The native function vector_push of src/vm/libseq.c, on a vector that represents a list.
use saurus.Base.{
  ℕ, suc, ◌+◌, ◌≤◌, ◌<◌, ◌≡◌, refl, ap, ◌∙◌, true, List, [], ◌∷◌, ◌++◌, length, ok, raise, fetch,
  int_bound, le→leb, ltb, take, false, negsuc, ◌-◌, Run, fault, ◌>>=◌, arith,
}
use saurus.Vector.{Vector, vector_push}
use saurus.Vector.Push.{vector_push-Represents}
use saurus.Vector.Shape.{Represents}
use saurus.Vm.{Value, object, stack_size}
use saurus.Vm.Api.{su_vector_push}
use saurus.Vm.Arguments.{stk, su_type, su_check_arguments, check_args}
use saurus.Vm.Closures.{push_all}
use saurus.Vm.Natives.{native_vector_push}
use saurus.Vm.State.{Machine, su_vector}
use saurus.Vm.NativeVectors.{returned, pushed_result}

module _ {N : Type 0} where
  bind_ok : (x : Run (Vector (Value N))) → (x >>= λ v. ok v) ≡ x
  bind_ok (ok v) = refl
  bind_ok (raise e) = refl
  bind_ok fault = refl

  push_all_one :
      (vec : Vector (Value N)) (val : Value N) → push_all vec (val ∷ []) ≡ vector_push vec val
  unfolding push_all
  push_all_one vec val = bind_ok (vector_push vec val)

  -- One argument besides the vector: the type of the vector is checked.
  check_push :
      (m : Machine N) (p : ℕ)
      → m.narg ≡ 2
      → stk m 2 ≡ ok (object su_vector p)
      → su_check_arguments m (negsuc 0) (su_vector ∷ []) ≡ ok tt
  unfolding su_check_arguments check_args su_type
  check_push m p given at' = rw (given, at') refl

  -- More arguments: after it, a type that was not passed is read.
  check_args-fault :
      (turns i p : ℕ) (m : Machine N)
      → stk m i ≡ ok (object su_vector p)
      → check_args (suc (suc turns)) i m (su_vector ∷ []) ≡ fault
  unfolding check_args su_type
  check_args-fault turns i p m at' = rw at' refl

  fetch_middle : (xs ys : List (Value N)) (v : Value N) → fetch (xs ++ v ∷ ys) (length xs) ≡ ok v
  fetch_middle [] ys v = refl
  fetch_middle (x ∷ xs) ys v = fetch_middle xs ys v

  stk-suc : (m : Machine N) (k n : ℕ) → n ≡ suc k → stk m n ≡ fetch m.stack k
  stk-suc m k n e = rw e refl

module _ {N : Type 0} (m : Machine N) (p : ℕ) (vec : Vector (Value N)) (xs : List (Value N))
    (there : fetch m.heap.vectors p ≡ ok vec) (r : Represents vec xs) (rest : List (Value N)) where
  push_run :
      (val : Value N)
      → m.narg ≡ 2
      → m.stack ≡ val ∷ object su_vector p ∷ rest
      → length m.stack < stack_size
      → native_vector_push m 2 ≡ (vector_push vec val >>= returned m)
  unfolding native_vector_push su_vector_push
  push_run val given s room =
      rw
        (
          check_push m p given (ap (λ l. fetch l 1) s),
          ap (λ l. fetch l 1) s,
          there,
          le→leb 1 (length m.stack) (omega (arith, ap length s)),
          ap (λ l. take 1 l) s,
          push_all_one vec val,
        )
        (pushed_result m (vector_push vec val) room)

  -- `vector-push` of a vector that represents a list and one value, with room for the result on the stack and for
  -- one more value in the vector: it adds one new vector to the heap and on top of the stack, which is as it was
  -- below, and the new vector represents the list with the value at its end.
  pub native_vector_push-Represents :
      (val : Value N)
      → m.narg ≡ 2
      → m.stack ≡ val ∷ object su_vector p ∷ rest
      → length m.stack < stack_size
      → length xs + 1 < int_bound
      → (vec' : Vector (Value N)) × (native_vector_push m 2
          ≡ ok (
            record m {
              stack = object su_vector (length m.heap.vectors) ∷ m.stack;
              heap = record m.heap { vectors = m.heap.vectors ++ vec' ∷ [] };
            },
            true,
          ))
        × Represents vec' (xs ++ val ∷ [])
  unfolding returned
  native_vector_push-Represents val given s room small =
      let (vec', run, r') = vector_push-Represents val r small in
      (vec', push_run val given s room ∙ ap (λ x. x >>= returned m) run, r')

-- `vector-push` of a vector and two values or more reads the type of an argument that its caller does not
-- pass, which is undefined.
pub native_vector_push-fault :
    {N : Type 0} (m : Machine N) (p : ℕ) (args rest : List (Value N))
    → m.narg ≡ length args + 1
    → m.stack ≡ args ++ object su_vector p ∷ rest
    → 2 ≤ length args
    → native_vector_push m m.narg ≡ fault
unfolding native_vector_push su_check_arguments
native_vector_push-fault m p args rest given s many =
    let turns : m.narg - 1 ≡ suc (suc (length args - 2)) = omega (arith, given, many) in
    let first : stk m m.narg ≡ ok (object su_vector p) =
      stk-suc m (length args) m.narg (omega (arith, given))
      ∙ ap (λ l. fetch l (length args)) s
      ∙ fetch_middle args rest (object su_vector p) in
    let enough : ltb m.narg 1 ≡ false = ground (arith, given, many) in
    rw (enough, turns, check_args-fault (length args - 2) m.narg p m first) refl
