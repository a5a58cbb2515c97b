-- ===== src/Vm/Calls.antt =====
-- `OP_CALL`, `OP_TCALL` and `OP_RETURN` of src/vm/core.c.
use saurus.Base.{
  ℕ, ◌+◌, ◌-◌, Bool, true, false, none, some, List, ◌∷◌, ◌++◌, length, take, drop, ltb, leb, ◌==◌,
  if◌then◌else◌, Run, ok, raise, fetch, ◌>>=◌, ◌>>◌, assert, ℤ, pos, negsuc, reverse,
  argument_count, no_argument, not_implemented, no_such_key, not_callable,
}
use saurus.HashMap.Table.{map_get}
use saurus.Vector.{vector_index}
use saurus.Vm.{Value, nil, object, push_value, su_pop, check_number, stack_size}
use saurus.Vm.Closures.{push_varg}
use saurus.Vm.Hash.{value_equality, hash_value}
use saurus.Vm.State.{
  Frame, Heap, Machine, Platform, max_calls, su_nativefunc, su_map, su_vector, su_function, cut_to,
}

module _ {N : Type 0} where
  -- The arguments as the function takes them.
  unfoldable pub take_arguments :
      Heap N → List (Value N) → (narg : ℤ) → (num : ℕ) → Run (List (Value N) × Heap N)
  unfolding push_varg
  take_arguments heap stack (negsuc n) num = push_varg heap stack num
  take_arguments heap stack (pos n) num =
      if n == num then ok (stack, heap) else raise argument_count

  -- A call of a closure: a new frame, the arguments, and behind them the upvalues.
  unfoldable pub call_function : Machine N → (num tmp callee : ℕ) → Run (Machine N)
  unfolding take_arguments
  call_function m num tmp callee = do
    assert (ltb (length m.frames) max_calls)
    func ← fetch m.heap.functions callee
    (stack, heap) ← take_arguments m.heap m.stack func.narg num
    assert (leb (length stack + length func.upvalues) stack_size)
    ok (record {
      pc = 0;
      narg = m.narg;
      stack = reverse func.upvalues ++ stack;
      frames = record { func = m.func; stack_top = tmp; ret_addr = m.pc + 1 } ∷ m.frames;
      func = callee;
      heap = heap;
    })

  -- `*STK(-1)`, or nil.
  abbrev pub returned_value : List (Value N) → Bool → Run (Value N)
  returned_value stack true = fetch stack 0
  returned_value stack false = ok nil

  -- The machine out of the running function, with the callee and its arguments where that one stood. `pc`
  -- is one before the return address, as in the source; a return address is never 0.
  abbrev pub leave : Machine N → Frame → (num : ℕ) → (below : List (Value N)) → Machine N
  leave m frame num below = record m {
    pc = frame.ret_addr - 1;
    func = frame.func;
    stack = take (num + 1) m.stack ++ below;
    frames = drop 1 m.frames;
  }

  unfoldable pub op_return : Machine N → Run (Machine N)
  op_return m = do
    frame ← fetch m.frames 0
    v ← fetch m.stack 0
    below ← cut_to m.stack frame.stack_top
    assert (ltb frame.stack_top stack_size)
    ok (record m {
      pc = frame.ret_addr;
      func = frame.func;
      stack = v ∷ below;
      frames = drop 1 m.frames;
    })

module _ {N : Type 0} (platform : Platform N) where
  unfoldable pub call_native : Machine N → (num tmp callee : ℕ) → Run (Machine N)
  call_native m num tmp callee = do
    (m', returned) ← platform.native callee (record m { narg = num }) num
    v ← returned_value m'.stack returned
    below ← cut_to m'.stack tmp
    ok (record m' { pc = m'.pc + 1; narg = m.narg; stack = v ∷ below; func = m.func })

  -- The value at a vector's index, or at a map's key.
  unfoldable pub element : Heap N → (type pointer : ℕ) → Value N → Run (Value N)
  unfolding vector_index map_get hash_value
  element heap t p arg =
      if t == su_vector
      then (do
        n ← check_number arg
        vec ← fetch heap.vectors p
        i ← platform.to_int n
        vector_index vec i)
      else (do
        m ← fetch heap.maps p
        hash ← hash_value platform heap arg
        r ← map_get (value_equality platform) m arg hash
        elim r [ none ↦ raise no_such_key | some v ↦ ok v ])

  unfoldable pub call_collection : Machine N → (num type pointer : ℕ) → Run (Machine N)
  unfolding element su_pop push_value
  call_collection m num t p =
      if num == 0
      then raise no_argument
      else if num == 1
      then (do
        arg ← fetch m.stack 0
        v ← element m.heap t p arg
        below ← su_pop m.stack 2
        stack ← push_value below v
        ok (record m { pc = m.pc + 1; stack = stack }))
      else raise not_implemented

  unfoldable pub call_value : Machine N → (num tmp : ℕ) → Value N → Run (Machine N)
  unfolding call_function call_native call_collection
  call_value m num tmp (object t p) =
      if t == su_function
      then call_function m num tmp p
      else if t == su_nativefunc
      then call_native m num tmp p
      else if t == su_vector
      then call_collection m num t p
      else if t == su_map
      then call_collection m num t p
      else raise not_callable
  call_value m num tmp v = raise not_callable

  unfoldable pub op_call : Machine N → (num : ℕ) → Run (Machine N)
  unfolding call_value
  op_call m num = fetch m.stack num >>= λ callee. call_value m num (length m.stack - num - 1) callee

  -- `memcpy` of memory that overlaps is undefined.
  unfoldable pub op_tcall : Machine N → (num : ℕ) → Run (Machine N)
  unfolding op_call
  op_tcall m num = do
    frame ← fetch m.frames 0
    below ← cut_to m.stack frame.stack_top
    assert (leb (frame.stack_top + (num + 1) + (num + 1)) (length m.stack))
    op_call (leave m frame num below) num
