-- ===== src/Tests/Variadic.antt =====
-- Functions that take any number of arguments on a small machine.
use saurus.Base.{ℕ, ◌≡◌, refl, true, [], ◌∷◌, ok, negsuc, arith}
use saurus.Tests.Machine.{heap, platform, code, caller}
use saurus.Vector.{Vector}
use saurus.Vector.Shape.{Represents}
use saurus.Vm.{Value, nil, number, object}
use saurus.Vm.Calls.{op_call}
use saurus.Vm.Natives.{vector}
use saurus.Vm.State.{Function, Machine}
use saurus.Vm.Variadic.{op_call-gathers, vector-Represents}

abbrev any_arguments : Function ℕ
any_arguments = record (code []) { narg = negsuc 0; upvalues = number 7 ∷ [] }

abbrev calling : Machine ℕ
calling = record caller {
  stack = number 5 ∷ number 4 ∷ object 6 0 ∷ nil ∷ [];
  heap = record heap { functions = any_arguments ∷ [] };
}

op_call-gathers_example :
    (vec : Vector (Value ℕ)) × Represents vec (number 4 ∷ number 5 ∷ [])
    × (op_call platform calling 2
        ≡ ok (record calling {
          stack = number 7 ∷ object 8 0 ∷ object 6 0 ∷ nil ∷ [];
          frames = record { func = 0; stack_top = 1; ret_addr = 1 } ∷ calling.frames;
          heap = record calling.heap { vectors = vec ∷ [] };
        }))
op_call-gathers_example =
    op_call-gathers platform calling 2 0 0 any_arguments (omega arith) (omega arith) refl refl refl
      (omega arith)

-- (vector 4 5)
vector-Represents_example :
    (vec : Vector (Value ℕ)) × Represents vec (number 4 ∷ number 5 ∷ [])
    × (vector calling 2
        ≡ ok (
          record calling {
            stack = object 8 0 ∷ calling.stack;
            heap = record calling.heap { vectors = vec ∷ [] };
          },
          true,
        ))
vector-Represents_example = vector-Represents platform calling 2 (omega arith) (omega arith)
