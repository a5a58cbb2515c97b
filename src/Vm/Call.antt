-- ===== src/Vm/Call.antt =====
-- su_call of src/vm/core.c with the loop of vm_loop that it runs.
use saurus.Base.{
  ℕ, zero, suc, ◌-◌, Bool, true, false, Option, none, some, List, ◌∷◌, length, drop, store, ltb,
  ◌==◌, if◌then◌else◌, Run, ok, raise, fault, fetch, ◌>>=◌, ◌>>◌, assert, ℤ, pos, negsuc,
  argument_count,
}
use saurus.Vm.{Value, nil, boolean, number, object, su_pop, push_value}
use saurus.Vm.State.{Frame, Machine, Platform, max_calls, su_function, su_nativefunc, cut_to}
use saurus.Vm.Step.{turn}

-- The number of arguments that a function takes; a negative number takes any.
abbrev pub takes : (narg : ℤ) → (num : ℕ) → Run (Unit {0})
takes (negsuc n) num = ok tt
takes (pos n) num = if n == num then ok tt else raise argument_count

module _ {N : Type 0} where
  -- `s->stack[i] = v`
  abbrev pub store_at : List (Value N) → (i : ℕ) → Value N → Run (List (Value N))
  store_at stack i v = if ltb i (length stack) then store stack (length stack - 1 - i) v else fault

  -- What a caller that wants no result does after a function.
  unfoldable pub drop_unwanted : Machine N → (nret : ℕ) → Run (Machine N)
  unfolding su_pop
  drop_unwanted m nret =
      if nret == 0 then (su_pop m.stack 1 >>= λ stack. ok (record m { stack = stack })) else ok m

  -- What it does after a native function with its callee at `top`.
  unfoldable pub native_result :
      Machine N → (top narg nret : ℕ) → (returned : Bool) → Run (List (Value N))
  unfolding su_pop push_value
  native_result m top narg nret returned =
      if nret == 0 then cut_to m.stack top else (elim returned [
        | true ↦ (do v ← fetch m.stack 0; stack ← store_at m.stack top v; su_pop stack narg)
        | false ↦ cut_to m.stack top >>= λ stack. push_value stack nil
      ])

module _ {N : Type 0} (platform : Platform N) where
  -- `vm_loop`, a turn for each unit of fuel; `none` is a loop that needs more.
  unfoldable pub vm_loop : (fuel : ℕ) → Machine N → Run (Option (Machine N))
  unfolding turn
  vm_loop zero m = ok none
  vm_loop (suc fuel) m =
      turn platform m >>= λ r. elim r [ none ↦ ok (some m) | some m' ↦ vm_loop fuel m' ]

  -- The frame of a call by `su_call`. A return to 65535 is past the last instruction.
  abbrev pub host_frame : Machine N → (p narg : ℕ) → Frame
  host_frame m p narg = record { func = p; stack_top = length m.stack - narg - 1; ret_addr = 65535 }

  -- The function's first instruction.
  abbrev pub entered : Machine N → (p narg : ℕ) → Machine N
  entered m p narg = record m {
    pc = 0;
    narg = narg;
    frames = host_frame m p narg ∷ m.frames;
    func = p;
  }

  -- `s->narg`, `s->pc` and the caller's `func` are put back.
  abbrev pub restored : Machine N → Machine N → Machine N
  restored m m' = record m' { pc = m.pc; narg = m.narg; func = m.func }

  abbrev pub after_loop : Machine N → (nret : ℕ) → Option (Machine N) → Run (Option (Machine N))
  after_loop m nret none = ok none
  after_loop m nret (some m') = drop_unwanted m' nret >>= λ m''. ok (some (restored m m''))

  unfoldable pub su_call : (fuel : ℕ) → Machine N → (narg nret : ℕ) → Run (Option (Machine N))
  unfolding vm_loop drop_unwanted native_result
  su_call fuel m narg nret = do
    f ← fetch m.stack narg
    assert (ltb (length m.frames) max_calls)
    elim f [
      | object t p ↦
          if t == su_function
          then (do
            func ← fetch m.heap.functions p
            takes func.narg narg
            r ← vm_loop fuel (entered m p narg)
            after_loop m nret r)
          else if t == su_nativefunc
          then (do
            (m', returned) ←
                platform.native p
                  (record m { narg = narg; frames = host_frame m p narg ∷ m.frames }) narg
            stack ← native_result m' (length m.stack - narg - 1) narg nret returned
            ok (some (restored m (record m' { stack = stack; frames = drop 1 m'.frames }))))
          else fault
      | nil ↦ fault
      | boolean b ↦ fault
      | number n ↦ fault
    ]
