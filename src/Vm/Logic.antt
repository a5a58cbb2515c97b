-- ===== src/Vm/Logic.antt =====
-- What the logical instructions of src/vm/core.c take for true.
use saurus.Base.{
  ℕ, suc, length, le→leb, arith, ◌+◌, ◌≡◌, refl, ap, ◌∙◌, Bool, true, false, ◌&&◌, List, ◌∷◌,
  if◌then◌else◌, ok,
}
use saurus.Vm.{
  Value, nil, boolean, number, object, Double, op_and, op_or, op_test, value_and, value_or,
  value_test, vm_step,
}

module _ {ℓ} {N : Type ℓ} where
  -- Everything but nil and false.
  abbrev pub truthy : Value N → Bool
  truthy nil = false
  truthy (boolean b) = b
  truthy (number n) = true
  truthy (object t p) = true

  value_test-truthy : (v : Value N) → value_test v ≡ truthy v
  unfolding value_test
  value_test-truthy nil = refl
  value_test-truthy (boolean b) = refl
  value_test-truthy (number n) = refl
  value_test-truthy (object t p) = refl

  value_and-truthy : (a b : Value N) → value_and a b ≡ truthy a && truthy b
  unfolding value_and value_test
  value_and-truthy a b =
      ap (λ x. x && value_test b) (value_test-truthy a)
      ∙ ap (λ x. truthy a && x) (value_test-truthy b)

  value_or-true : (a b : Value N) → value_or a b ≡ true
  unfolding value_or
  value_or-true nil b = refl
  value_or-true (boolean c) b = refl
  value_or-true (number n) b = refl
  value_or-true (object t p) b = refl

  -- With two values on the stack, where nil and false count as false and everything else as true:
  -- OP_AND replaces them by the conjunction, OP_OR replaces them by true whatever they are, and OP_TEST
  -- drops the upper one and jumps to its operand exactly if that is true.
  pub vm_step-logic :
      (double : Double N) (constants : List (Value N)) (pc target : ℕ) (a b : Value N)
      (rest : List (Value N))
      → (vm_step double constants op_and (record { pc = pc; stack = b ∷ a ∷ rest })
          ≡ ok (record { pc = pc + 1; stack = boolean (truthy a && truthy b) ∷ rest }))
        × (vm_step double constants op_or (record { pc = pc; stack = b ∷ a ∷ rest })
            ≡ ok (record { pc = pc + 1; stack = boolean true ∷ rest }))
        × (vm_step double constants (op_test target) (record { pc = pc; stack = b ∷ a ∷ rest })
            ≡ ok (record { pc = if truthy b then target else pc + 1; stack = a ∷ rest }))
  unfolding vm_step
  vm_step-logic double constants pc target a b rest = (
    ap (λ x. ok (record { pc = pc + 1; stack = boolean x ∷ rest })) (value_and-truthy a b),
    ap (λ x. ok (record { pc = pc + 1; stack = boolean x ∷ rest })) (value_or-true a b),
    rw (le→leb 1 (suc (suc (length rest))) (omega arith)) (
        ap (λ x. ok (record { pc = if x then target else pc + 1; stack = a ∷ rest }))
          (value_test-truthy b)),
  )
