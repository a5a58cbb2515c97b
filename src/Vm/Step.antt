-- ===== src/Vm/Step.antt =====
-- `vm_loop` of src/vm/core.c: the instructions by their codes, one turn of the loop, and its runs.
use saurus.Base.{
  ℕ, ◌+◌, ◌-◌, ◌≡◌, Option, none, some, [], ◌∷◌, length, get_elem?, ltb, if◌then◌else◌, Run, ok,
  fault, fetch, ◌>>=◌, ◌>>◌, assert, ℤ, pos, negsuc,
}
use saurus.Image.{InstructionWord}
use saurus.Vm.{
  boolean, Instruction, op_push, op_pop, op_add, op_sub, op_mul, op_div, op_mod, op_pow, op_unm,
  op_less, op_lequal, op_not, op_and, op_or, op_test, op_jmp, stack_size, push_value, binary,
  execute, next_pc,
}
use saurus.Vm.Calls.{op_call, op_tcall, op_return}
use saurus.Vm.Closures.{prot_inst, prot_prot, prot_at, lambda, get_global, set_global}
use saurus.Vm.Hash.{value_same}
use saurus.Vm.State.{Function, Machine, Platform, stack_at}

-- An instruction as the `switch` takes it; `simple` are those that work on the stack alone.
pub data Code : Type 0 where
  simple : Instruction → Code
  eq return : Code
  copy call tcall getglobal setglobal load : (a : ℕ) → Code
  make_lambda : (a b : ℕ) → Code

-- In the order of the `enum`. Any other code is a failed `assert`.
unfoldable pub decode : InstructionWord → Option Code
decode i =
    get_elem?
      (simple (op_push i.a)
        ∷ simple (op_pop i.a)
        ∷ copy i.a
        ∷ simple op_add
        ∷ simple op_sub
        ∷ simple op_mul
        ∷ simple op_div
        ∷ simple op_mod
        ∷ simple op_pow
        ∷ simple op_unm
        ∷ eq
        ∷ simple op_less
        ∷ simple op_lequal
        ∷ simple op_not
        ∷ simple op_and
        ∷ simple op_or
        ∷ simple (op_test i.a)
        ∷ simple (op_jmp i.a)
        ∷ return
        ∷ call i.a
        ∷ tcall i.a
        ∷ make_lambda i.a i.b
        ∷ getglobal i.a
        ∷ setglobal i.a
        ∷ load i.a
        ∷ [])
      i.id

-- A bit pattern as a `short`.
abbrev pub signed_short : ℕ → ℤ
signed_short b = if ltb b 32768 then pos b else negsuc (65535 - b)

module _ {N : Type 0} (platform : Platform N) where
  -- `func` is the running function, `f` its object.
  unfoldable pub perform : Machine N → (f : Function N) → Code → Run (Machine N)
  unfolding execute next_pc value_same op_return op_call op_tcall lambda get_global set_global
      push_value
  perform m f (simple i) = execute platform.double f.constants i m.stack >>= λ stack.
      ok (record m { pc = next_pc platform.double i m.pc m.stack; stack = stack })
  perform m f eq = binary m.stack (λ a b. ok (boolean (value_same platform a b))) >>= λ stack.
      ok (record m { pc = m.pc + 1; stack = stack })
  perform m f return = op_return m
  perform m f (copy a) = do
    frame ← fetch m.frames 0
    v ← stack_at m.stack (frame.stack_top + a)
    assert (ltb (length m.stack) stack_size)
    ok (record m { pc = m.pc + 1; stack = v ∷ m.stack })
  perform m f (call a) = op_call platform m a
  perform m f (tcall a) = op_tcall platform m a
  perform m f (make_lambda a b) = do
    prot ← prot_at (prot_prot f.prot) a
    (stack, heap) ← lambda m.heap m.frames m.stack prot (signed_short b)
    ok (record m { pc = m.pc + 1; stack = stack; heap = heap })
  perform m f (getglobal a) = do
    key ← fetch f.constants a
    v ← get_global platform m.heap key
    stack ← push_value m.stack v
    ok (record m { pc = m.pc + 1; stack = stack })
  perform m f (setglobal a) = do
    key ← fetch f.constants a
    val ← fetch m.stack 0
    heap ← set_global platform m.heap key val
    ok (record m { pc = m.pc + 1; heap = heap })
  perform m f (load a) = do
    frame ← fetch m.frames 0
    v ← stack_at m.stack (frame.stack_top + 1 + a)
    stack ← push_value m.stack v
    ok (record m { pc = m.pc + 1; stack = stack })

  abbrev pub perform_decoded : Machine N → Function N → Option Code → Run (Machine N)
  perform_decoded m f none = fault
  perform_decoded m f (some code) = perform m f code

  abbrev pub run_at : Machine N → Function N → Run (Option (Machine N))
  run_at m f = do
    word ← fetch (prot_inst f.prot) m.pc
    m' ← perform_decoded m f (decode word)
    ok (some m')

  -- A turn of the loop. It ends at `none`, where `pc` is past the last instruction.
  unfoldable pub turn : Machine N → Run (Option (Machine N))
  unfolding perform decode
  turn m = do
    f ← fetch m.heap.functions m.func
    if ltb m.pc (length (prot_inst f.prot)) then run_at m f else ok none

  -- The states that the loop goes through.
  pub data Turns (m : Machine N) : Machine N → Type 0 where
    here : Turns m m
    next : {m' m'' : Machine N} → Turns m m' → turn m' ≡ ok (some m'') → Turns m m''
