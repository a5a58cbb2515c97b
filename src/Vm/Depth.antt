-- ===== src/Vm/Depth.antt =====
-- How the instructions of src/vm/core.c move the top of the stack.
use saurus.Base.{
  bind-ok, ℕ, zero, suc, ◌+◌, ◌≤◌, ◌≡◌, ap, List, [], ◌∷◌, length, drop, ltb, leb, Bool-cases, inl,
  inr, Run, ok, raise, fault, fetch, stack_overflow, arith,
}
use saurus.Vm.{
  Value, Double, Instruction, op_push, op_pop, op_add, op_sub, op_mul, op_div, op_mod, op_pow,
  op_unm, op_less, op_lequal, op_not, op_and, op_or, op_test, op_jmp, stack_size, push_value,
  su_pop, binary, unary, execute,
}

-- How many values an instruction takes from the stack, and how many it puts there.
abbrev pub taken : Instruction → ℕ
taken (op_push a) = 0
taken (op_pop a) = a
taken op_add = 2
taken op_sub = 2
taken op_mul = 2
taken op_div = 2
taken op_mod = 2
taken op_pow = 2
taken op_unm = 1
taken op_less = 2
taken op_lequal = 2
taken op_not = 1
taken op_and = 2
taken op_or = 2
taken (op_test a) = 1
taken (op_jmp a) = 0

abbrev pub given : Instruction → ℕ
given (op_push a) = 1
given (op_pop a) = 0
given op_add = 1
given op_sub = 1
given op_mul = 1
given op_div = 1
given op_mod = 1
given op_pow = 1
given op_unm = 1
given op_less = 1
given op_lequal = 1
given op_not = 1
given op_and = 1
given op_or = 1
given (op_test a) = 0
given (op_jmp a) = 0

module _ {ℓ} {A : Type ℓ} where
  pub drop-depth : (n : ℕ) (xs : List A) → n ≤ length xs → length (drop n xs) + n ≡ length xs
  drop-depth zero xs h = omega arith
  drop-depth (suc n) [] h = absurd (omega arith)
  drop-depth (suc n) (x ∷ xs) h = omega (arith, drop-depth n xs (omega arith))

-- The depth after an instruction that ends, within the bound if it was.
abbrev pub Moves : ℕ → ℕ → (before after : ℕ) → Type 0
Moves t g before after = (after + t ≡ before + g) × (before ≤ stack_size → after ≤ stack_size)

module _ {ℓ} {N : Type ℓ} where
  pub binary-Moves :
      (s s' : List (Value N)) (f : Value N → Value N → Run (Value N))
      → binary s f ≡ ok s'
      → Moves 2 1 (length s) (length s')
  binary-Moves [] s' f e = absurd (cc)
  binary-Moves (b ∷ []) s' f e = absurd (cc)
  binary-Moves (b ∷ a ∷ rest) s' f e =
      let (v, run, made) = bind-ok (f a b) (λ x. ok (x ∷ rest)) s' e in
      let same : v ∷ rest ≡ s' = cc in
      (omega (arith, ap length same), λ h. omega (arith, h, ap length same))

  unary-Moves :
      (s s' : List (Value N)) (f : Value N → Run (Value N))
      → unary s f ≡ ok s'
      → Moves 1 1 (length s) (length s')
  unary-Moves [] s' f e = absurd (cc)
  unary-Moves (a ∷ rest) s' f e =
      let (v, run, made) = bind-ok (f a) (λ x. ok (x ∷ rest)) s' e in
      let same : v ∷ rest ≡ s' = cc in
      (omega (arith, ap length same), λ h. omega (arith, h, ap length same))

  pub push-Moves :
      (s s' : List (Value N)) (v : Value N)
      → push_value s v ≡ ok s'
      → Moves 0 1 (length s) (length s')
  unfolding push_value
  push-Moves s s' v e = elim (Bool-cases (ltb (length s) 512)) [
    | inl k ↦
        let e' : ok (v ∷ s) ≡ ok s' = (rw k at e) in
        let same : v ∷ s ≡ s' = cc in
        (omega (arith, ap length same), λ h. ground (arith, k, ap length same))
    | inr k ↦ let e' : raise stack_overflow ≡ ok s' = (rw k at e) in absurd (cc)
  ]

  pub pop-Moves :
      (s s' : List (Value N)) (n : ℕ) → su_pop s n ≡ ok s' → Moves n 0 (length s) (length s')
  unfolding su_pop
  pop-Moves s s' n e = elim (Bool-cases (leb n (length s))) [
    | inl k ↦
        let e' : ok (drop n s) ≡ ok s' = (rw k at e) in
        let same : drop n s ≡ s' = cc in
        let d = drop-depth n s (ground (arith, k)) in
        (omega (arith, ap length same, d), λ h. omega (arith, h, ap length same, d))
    | inr k ↦ let e' : fault ≡ ok s' = (rw k at e) in absurd (cc)
  ]

  -- If an instruction ends, the stack has as many values more as the instruction gives, less those it
  -- takes, and a stack within its bound of 512 values stays within it.
  pub execute-Moves :
      (double : Double N) (constants : List (Value N)) (i : Instruction) (s s' : List (Value N))
      → execute double constants i s ≡ ok s'
      → (length s' + taken i ≡ length s + given i)
        × (length s ≤ stack_size → length s' ≤ stack_size)
  unfolding execute
  execute-Moves double constants (op_push a) s s' e =
      let (v, run, made) = bind-ok (fetch constants a) (λ x. push_value s x) s' e in
      push-Moves s s' v made
  execute-Moves double constants (op_pop a) s s' e = pop-Moves s s' a e
  execute-Moves double constants op_add s s' e = binary-Moves s s' _ e
  execute-Moves double constants op_sub s s' e = binary-Moves s s' _ e
  execute-Moves double constants op_mul s s' e = binary-Moves s s' _ e
  execute-Moves double constants op_div s s' e = binary-Moves s s' _ e
  execute-Moves double constants op_mod s s' e = binary-Moves s s' _ e
  execute-Moves double constants op_pow s s' e = binary-Moves s s' _ e
  execute-Moves double constants op_unm s s' e = unary-Moves s s' _ e
  execute-Moves double constants op_less s s' e = binary-Moves s s' _ e
  execute-Moves double constants op_lequal s s' e = binary-Moves s s' _ e
  execute-Moves double constants op_not s s' e = unary-Moves s s' _ e
  execute-Moves double constants op_and s s' e = binary-Moves s s' _ e
  execute-Moves double constants op_or s s' e = binary-Moves s s' _ e
  execute-Moves double constants (op_test a) s s' e = pop-Moves s s' 1 e
  execute-Moves double constants (op_jmp a) s s' e =
      let same : s ≡ s' = cc in
      (omega (arith, ap length same), λ h. omega (arith, h, ap length same))
