-- ===== src/Vm.antt =====
-- The instructions of `vm_loop` in src/vm/core.c that work on the stack alone: constants, arithmetic,
-- comparison, logic and jumps.
pub mod Logic
pub mod Depth
pub mod State
pub mod Hash
pub mod Strings
pub mod Closures
pub mod Calls
pub mod Step
pub mod Arguments
pub mod Api
pub mod Natives
pub mod CallBounds
pub mod Bounds
pub mod Returns
pub mod TailCalls
pub mod Host
pub mod Call
pub mod HostCalls
pub mod Starts
pub mod Interning
pub mod Globals
pub mod Sequences
pub mod Lists
pub mod Variadic
pub mod Library
pub mod LibraryBounds
pub mod LibraryRuns
pub mod Interned
pub mod NativeMaps
pub mod NativePush
pub mod NativeVectors
use saurus.Base.{
  ℕ, zero, suc, ◌+◌, ◌-◌, Bool, true, false, not, ◌&&◌, ◌||◌, List, [], ◌∷◌, length, drop, ltb, leb,
  ◌==◌, if◌then◌else◌, Run, ok, raise, fault, fetch, ◌>>=◌, stack_overflow, bad_argument,
}

-- `value_t`: an object has a type other than these and a pointer.
pub data Value {ℓ} (N : Type ℓ) : Type ℓ where
  nil : Value N
  boolean : Bool → Value N
  number : N → Value N
  object : (type pointer : ℕ) → Value N

-- The operations of C on `double`. `%` is on the numbers as `int`, where it may be undefined.
pub record Double {ℓ} (N : Type ℓ) : Type ℓ where
  pub add : N → N → N
  pub sub : N → N → N
  pub mul : N → N → N
  pub div : N → N → N
  pub pow : N → N → N
  pub mod_int : N → N → Run N
  pub negate : N → N
  pub less : N → N → Bool
  pub less_equal : N → N → Bool

pub data Instruction : Type 0 where
  op_push op_pop : (a : ℕ) → Instruction
  op_add op_sub op_mul op_div op_mod op_pow op_unm : Instruction
  op_less op_lequal : Instruction
  op_not op_and op_or : Instruction
  op_test op_jmp : (a : ℕ) → Instruction

-- `pc` and the stack, its last value first.
pub record VmState {ℓ} (N : Type ℓ) : Type ℓ where
  pub pc : ℕ
  pub stack : List (Value N)

-- `STACK_SIZE`
abbrev pub stack_size : ℕ
stack_size = 512

module _ {ℓ} {N : Type ℓ} where
  unfoldable pub push_value : List (Value N) → Value N → Run (List (Value N))
  push_value stack v =
      if ltb (length stack) stack_size then ok (v ∷ stack) else raise stack_overflow

  unfoldable pub su_pop : List (Value N) → ℕ → Run (List (Value N))
  su_pop stack n = if leb n (length stack) then ok (drop n stack) else fault

  -- `su_check_type(s, idx, SU_NUMBER)`
  abbrev pub check_number : Value N → Run N
  check_number nil = raise bad_argument
  check_number (boolean b) = raise bad_argument
  check_number (number n) = ok n
  check_number (object t p) = raise bad_argument

  abbrev pub is_nil : Value N → Bool
  is_nil nil = true
  is_nil (boolean b) = false
  is_nil (number n) = false
  is_nil (object t p) = false

  -- `type != SU_BOOLEAN || obj.b`
  abbrev pub is_not_false : Value N → Bool
  is_not_false nil = true
  is_not_false (boolean b) = b
  is_not_false (number n) = true
  is_not_false (object t p) = true

  -- `OP_NOT`, `OP_AND`, `OP_OR` and the test of `OP_TEST`.
  unfoldable pub value_not : Value N → Bool
  value_not nil = not (is_nil nil)
  value_not (boolean b) = not b
  value_not (number n) = not (is_nil (number n))
  value_not (object t p) = not (is_nil (object t p))

  unfoldable pub value_test : Value N → Bool
  value_test v = not (is_nil v) && is_not_false v

  unfoldable pub value_and : Value N → Value N → Bool
  value_and a b = (not (is_nil a) && is_not_false a) && (not (is_nil b) && is_not_false b)

  unfoldable pub value_or : Value N → Value N → Bool
  value_or a b = (not (is_nil a) || is_not_false a) || (not (is_nil b) || is_not_false b)

  -- The two values on top of the stack, and what is below. Below the stack is another object.
  abbrev pub binary : List (Value N) → (Value N → Value N → Run (Value N)) → Run (List (Value N))
  binary [] f = fault
  binary (b ∷ []) f = fault
  binary (b ∷ a ∷ rest) f = f a b >>= λ v. ok (v ∷ rest)

  abbrev pub unary : List (Value N) → (Value N → Run (Value N)) → Run (List (Value N))
  unary [] f = fault
  unary (a ∷ rest) f = f a >>= λ v. ok (v ∷ rest)

module _ {ℓ} {N : Type ℓ} (double : Double N) where
  -- `ARITH_OP` and `LOG_OP`
  abbrev pub arith_op : (N → N → Run N) → Value N → Value N → Run (Value N)
  arith_op f a b = do x ← check_number a; y ← check_number b; z ← f x y; ok (number z)

  abbrev pub log_op : (N → N → Bool) → Value N → Value N → Run (Value N)
  log_op f a b = do x ← check_number a; y ← check_number b; ok (boolean (f x y))

  -- What an instruction without a jump does to the stack.
  unfoldable pub execute : List (Value N) → Instruction → List (Value N) → Run (List (Value N))
  unfolding push_value su_pop value_not value_and value_or
  execute constants (op_push a) stack = fetch constants a >>= λ v. push_value stack v
  execute constants (op_pop a) stack = su_pop stack a
  execute constants op_add stack = binary stack (arith_op (λ x y. ok (double.add x y)))
  execute constants op_sub stack = binary stack (arith_op (λ x y. ok (double.sub x y)))
  execute constants op_mul stack = binary stack (arith_op (λ x y. ok (double.mul x y)))
  execute constants op_div stack = binary stack (arith_op (λ x y. ok (double.div x y)))
  execute constants op_mod stack = binary stack (arith_op double.mod_int)
  execute constants op_pow stack = binary stack (arith_op (λ x y. ok (double.pow x y)))
  execute constants op_unm stack =
      unary stack (λ a. check_number a >>= λ x. ok (number (double.negate x)))
  execute constants op_less stack = binary stack (log_op double.less)
  execute constants op_lequal stack = binary stack (log_op double.less_equal)
  execute constants op_not stack = unary stack (λ a. ok (boolean (value_not a)))
  execute constants op_and stack = binary stack (λ a b. ok (boolean (value_and a b)))
  execute constants op_or stack = binary stack (λ a b. ok (boolean (value_or a b)))
  execute constants (op_test a) stack = su_pop stack 1
  execute constants (op_jmp a) stack = ok stack

  -- The next `pc`: `pc = a - 1`, and the loop's `pc++`.
  unfoldable pub next_pc : Instruction → ℕ → List (Value N) → ℕ
  unfolding value_test
  next_pc (op_test a) pc [] = pc + 1
  next_pc (op_test a) pc (v ∷ rest) = if value_test v then a else pc + 1
  next_pc (op_jmp a) pc stack = a
  next_pc _ pc stack = pc + 1

  unfoldable pub vm_step : List (Value N) → Instruction → VmState N → Run (VmState N)
  unfolding execute next_pc
  vm_step constants i s = execute constants i s.stack >>= λ stack.
      ok (record { pc = next_pc i s.pc s.stack; stack = stack })
