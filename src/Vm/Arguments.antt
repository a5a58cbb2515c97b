-- ===== src/Vm/Arguments.antt =====
-- `su_type` and `su_check_arguments` of src/vm/core.c.
use saurus.Base.{
  ℕ, zero, suc, ◌-◌, ◌≡◌, refl, ap, ◌∙◌, ==_refl, List, [], ◌∷◌, ltb, ◌==◌, if◌then◌else◌, Run, ok,
  raise, fault, fetch, ◌>>=◌, ℤ, pos, negsuc, argument_count, bad_argument, arith,
}
use saurus.Vm.{Value}
use saurus.Vm.State.{Machine, type_of, su_nil, su_seq}

abbrev pub cell_seq_type : ℕ
cell_seq_type = 21

abbrev pub it_seq_type : ℕ
it_seq_type = 22

module _ {N : Type 0} where
  -- `STK(-k)`
  abbrev pub stk : Machine N → ℕ → Run (Value N)
  stk m zero = fault
  stk m (suc k) = fetch m.stack k

  unfoldable pub su_type : Value N → ℕ
  su_type v =
      if type_of v == cell_seq_type
      then su_seq
      else if type_of v == it_seq_type
      then su_seq
      else type_of v

  -- One turn of the loop of `check_args`; `SU_NIL` stands for any type.
  abbrev pub check_one : ℕ → Value N → Run (Unit {0})
  check_one b v =
      if b == su_nil then ok tt else if su_type v == b then ok tt else raise bad_argument

  -- `check_args`, a turn for each unit of the first argument. More arguments than types were given is undefined.
  unfoldable pub check_args : (turns i : ℕ) → Machine N → List ℕ → Run (Unit {0})
  unfolding su_type
  check_args zero i m types = ok tt
  check_args (suc turns) i m [] = fault
  check_args (suc turns) i m (b ∷ types) =
      stk m i >>= λ v. check_one b v >>= λ u. check_args turns (i - 1) m types

  -- The loop goes on while `i - num > 0`, from `start` down.
  abbrev pub start_check : (start num : ℕ) → Machine N → List ℕ → Run (Unit {0})
  start_check start num m types = check_args (start - num) start m types

  unfoldable pub su_check_arguments : Machine N → (num : ℤ) → List ℕ → Run (Unit {0})
  unfolding check_args
  su_check_arguments m (pos num) types =
      if m.narg == num then start_check num num m types else raise argument_count
  su_check_arguments m (negsuc k) types =
      if ltb m.narg (suc k) then raise argument_count else start_check m.narg (suc k) m types

  no_turns : (n : ℕ) (m : Machine N) (types : List ℕ) → start_check n n m types ≡ ok tt
  unfolding check_args
  no_turns n m types = let e : n - n ≡ 0 = omega arith in rw e refl

  -- With a fixed number of arguments only that number is checked: if it is right, the check passes whatever the
  -- types of the arguments are and should be, and otherwise it raises the error.
  pub su_check_arguments-fixed :
      (m : Machine N) (num : ℕ) (types : List ℕ)
      → su_check_arguments m (pos num) types
        ≡ (if m.narg == num then ok tt else raise argument_count)
  unfolding su_check_arguments
  su_check_arguments-fixed m num types =
      ap (λ r. if m.narg == num then r else raise argument_count) (no_turns num m types)

  pub checked :
      (m : Machine N) (num : ℕ) (types : List ℕ)
      → m.narg ≡ num
      → su_check_arguments m (pos num) types ≡ ok tt
  checked m num types e = su_check_arguments-fixed m num types ∙ rw (e, ==_refl num) refl
