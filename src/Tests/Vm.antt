-- ===== src/Tests/Vm.antt =====
-- Instructions of src/vm/core.c on a small stack; the numbers are natural numbers.
use saurus.Base.{
  ℕ, ◌+◌, ◌-◌, ◌*◌, ◌/◌, ◌^◌, ◌%◌, ◌≤◌, ◌≡◌, refl, true, false, ◌&&◌, List, [], ◌∷◌, length, ltb,
  leb, if◌then◌else◌, ok,
}
use saurus.Vm.{
  Value, nil, boolean, number, Double, op_add, op_and, op_or, op_test, VmState, stack_size,
  value_not, execute, vm_step,
}
use saurus.Vm.Logic.{truthy, vm_step-logic}
use saurus.Vm.Depth.{taken, given, execute-Moves}

abbrev naturals : Double ℕ
naturals = record {
  add = λ a b. a + b;
  sub = λ a b. a - b;
  mul = λ a b. a * b;
  div = λ a b. a / b;
  pow = λ a b. a ^ b;
  mod_int = λ a b. ok (a % b);
  negate = λ a. a;
  less = ltb;
  less_equal = leb;
}

abbrev state : VmState ℕ
state = record { pc = 3; stack = boolean true ∷ nil ∷ [] }

vm_step_example :
    (vm_step naturals [] op_and state
      ≡ ok (record {
        pc = 4;
        stack = boolean (truthy {N = ℕ} nil && truthy {N = ℕ} (boolean true)) ∷ [];
      }))
    × (vm_step naturals [] op_or state ≡ ok (record { pc = 4; stack = boolean true ∷ [] }))
    × (vm_step naturals [] (op_test 9) state
        ≡ ok (record { pc = if truthy {N = ℕ} (boolean true) then 9 else 4; stack = nil ∷ [] }))
vm_step_example = vm_step-logic naturals [] 3 9 nil (boolean true) []

abbrev sum : List (Value ℕ)
sum = number 5 ∷ []

sum_run : execute naturals [] op_add (number 2 ∷ number 3 ∷ []) ≡ ok sum
unfolding execute
sum_run = refl

execute_example :
    (length sum + taken op_add ≡ 2 + given op_add) × (2 ≤ stack_size → length sum ≤ stack_size)
execute_example = execute-Moves naturals [] op_add (number 2 ∷ number 3 ∷ []) sum sum_run

-- The negation of nil is false.
not_nil : value_not {N = ℕ} nil ≡ false
unfolding value_not
not_nil = refl

-- False or nil is true.
false_or_nil : execute naturals [] op_or (nil ∷ boolean false ∷ []) ≡ ok (boolean true ∷ [])
unfolding execute
false_or_nil = refl
