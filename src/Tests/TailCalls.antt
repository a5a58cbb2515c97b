-- ===== src/Tests/TailCalls.antt =====
-- A tail call of a vector, as a vector with one argument is an element of it.
use saurus.Base.{ℕ, ◌≡◌, refl, inl, [], ◌∷◌, ok, ◌>>=◌, arith}
use saurus.Tests.Machine.{heap, platform, base, caller}
use saurus.Vector.{Vector, sub_index}
use saurus.Vm.{Value, nil, number, object}
use saurus.Vm.Calls.{op_call, op_tcall, op_return}
use saurus.Vm.State.{Machine}
use saurus.Vm.TailCalls.{op_tcall-op_call}

abbrev two_values : Vector (Value ℕ)
two_values = record { cnt = 2; depth = 0; root = []; tail = number 6 ∷ number 7 ∷ [] }

abbrev indexing : Machine ℕ
indexing = record caller {
  stack = number 1 ∷ object 8 0 ∷ nil ∷ object 6 0 ∷ [];
  heap = record heap { vectors = two_values ∷ [] };
}

op_tcall-op_call_example :
    op_tcall platform indexing 1 ≡ (op_call platform indexing 1 >>= op_return)
op_tcall-op_call_example =
    op_tcall-op_call platform indexing base [] [] 8 0 refl (omega arith) refl (omega arith)
      (omega arith) 1 refl (inl refl) (omega arith)

-- Both give the element to the caller's caller.
indexed :
    op_tcall platform indexing 1
    ≡ ok (record indexing { pc = 65535; stack = number 7 ∷ []; frames = [] })
unfolding op_tcall sub_index
indexed = refl
