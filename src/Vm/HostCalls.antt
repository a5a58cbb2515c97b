-- ===== src/Vm/HostCalls.antt =====
-- What a call by su_call of src/vm/core.c leaves.
use saurus.Base.{
  ℕ, zero, suc, ◌+◌, ◌-◌, ◌≤◌, ◌<◌, ◌≡◌, refl, ap, ◌∙◌, true, Option, some, List, [], ◌∷◌, ◌++◌,
  length, drop, store, ◌==◌, if◌then◌else◌, ok, fetch, ◌>>=◌, le→leb, lt→ltb, le→ltb, ==-ne, arith,
}
use saurus.Vm.{Value, object, stack_size}
use saurus.Vm.Call.{takes, drop_unwanted, native_result, vm_loop, host_frame, entered, su_call}
use saurus.Vm.Calls.{op_return}
use saurus.Vm.Closures.{prot_inst}
use saurus.Vm.Returns.{op_return_lem, length-drop_arguments}
use saurus.Vm.State.{Function, Machine, Platform, max_calls, su_function, su_nativefunc}
use saurus.Vm.Step.{turn, Turns, here, next}

module _ {N : Type 0} (platform : Platform N) where
  -- A run that ends is a run of the loop, given enough fuel.
  loop-Turns :
      {m m' : Machine N}
      → Turns platform m m'
      → (k : ℕ) (r : Option (Machine N)) → vm_loop platform k m' ≡ ok r
      → (fuel : ℕ) × (vm_loop platform fuel m ≡ ok r)
  unfolding vm_loop
  loop-Turns here k r e = (k, e)
  loop-Turns (next {m'} {m''} before t) k r e = loop-Turns before (suc k) r (rw t e)

  -- The machine that a call of a function by `su_call` leaves.
  abbrev pub left_with : Machine N → Machine N → List (Value N) → Machine N
  left_with m m₁ stack = record {
    pc = m.pc;
    narg = m.narg;
    stack = stack;
    frames = m.frames;
    func = m.func;
    heap = m₁.heap;
  }

  past_end :
      (m : Machine N) (func : Function N)
      → m.pc ≡ 65535
      → fetch m.heap.functions m.func ≡ ok func
      → length (prot_inst func.prot) ≤ 65535
      → vm_loop platform 1 m ≡ ok (some m)
  unfolding vm_loop turn
  past_end m func at_end found short =
      rw (found, le→ltb m.pc (length (prot_inst func.prot)) (omega (arith, short, at_end))) refl

  unwanted :
      (m : Machine N) (v : Value N) (below : List (Value N)) (nret : ℕ)
      → m.stack ≡ v ∷ below
      → drop_unwanted m nret ≡ ok (record m { stack = if nret == 0 then below else v ∷ below })
  unfolding drop_unwanted
  unwanted m v below zero s = rw (s, le→leb 1 (suc (length below)) (omega arith)) refl
  unwanted m v below (suc n) s = rw (s, ==-ne (suc n) 0 (λ e. omega (arith, e))) refl

  -- If the loop, from the first instruction of the function that `su_call` calls, comes to an OP_RETURN with the
  -- frame of that call on top and the stack below the callee as it was, then `su_call` returns, with enough
  -- fuel: the result stands in the place of the callee, or is dropped if none is wanted, and `pc`, `narg`, the
  -- frames and the running function are what they were.
  pub su_call-returns :
      (m m₁ : Machine N) (narg nret p : ℕ) (func func' : Function N) (v : Value N)
      (above : List (Value N))
      → fetch m.stack narg ≡ ok (object su_function p)
      → length m.stack ≤ stack_size
      → length m.frames < max_calls
      → fetch m.heap.functions p ≡ ok func
      → takes func.narg narg ≡ ok tt
      → Turns platform (entered platform m p narg) m₁
      → turn platform m₁ ≡ (op_return m₁ >>= λ m'. ok (some m'))
      → m₁.frames ≡ host_frame platform m p narg ∷ m.frames
      → m₁.stack ≡ v ∷ above ++ drop (narg + 1) m.stack
      → fetch m₁.heap.functions p ≡ ok func'
      → length (prot_inst func'.prot) ≤ 65535
      → (fuel : ℕ) × (su_call platform fuel m narg nret
          ≡ ok (
              some (
                left_with m m₁
                  (if nret == 0 then drop (narg + 1) m.stack else v ∷ drop (narg + 1) m.stack))))
  unfolding su_call drop_unwanted
  su_call-returns m m₁ narg nret p func func' v above callee fits free found arity run back fr st
        found' short =
      let (n, lt) = length-drop_arguments narg m.stack (object su_function p) callee in
      let frame = host_frame platform m p narg in
      let m₂ : Machine N = record {
        pc = 65535;
        narg = m₁.narg;
        stack = v ∷ drop (narg + 1) m.stack;
        frames = m.frames;
        func = p;
        heap = m₁.heap;
      } in
      let returned : op_return m₁ ≡ ok m₂ =
        op_return_lem m₁ frame m.frames v above (drop (narg + 1) m.stack) fr st n
          (omega (arith, fits, lt)) in
      let last : turn platform m₁ ≡ ok (some m₂) =
        back ∙ ap (λ r. r >>= λ m'. ok (some m')) returned in
      let (fuel, e) =
        loop-Turns (next run last) 1 (some m₂) (past_end m₂ func' refl found' short) in
      (
        fuel,
        rw (callee, lt→ltb (length m.frames) max_calls free, found, arity, e)
            (rw (unwanted m₂ v (drop (narg + 1) m.stack) nret refl) refl),
      )

  stored :
      (n : ℕ) (xs : List (Value N)) (v : Value N)
      → suc n < length xs
      → (top : Value N) × (ys : List (Value N)) × (fetch xs n ≡ ok top)
        × (store xs (suc n) v ≡ ok ys)
        × (drop n ys ≡ top ∷ v ∷ drop (suc (suc n)) xs)
        × (n ≤ length ys)
  stored n [] v h = absurd (omega (arith, h))
  stored zero (x ∷ []) v h = absurd (omega (arith, h))
  stored zero (x ∷ y ∷ xs) v h = (x, x ∷ v ∷ xs, refl, refl, refl, omega arith)
  stored (suc n) (x ∷ xs) v h =
      let (top, ys, got, put, rest, le) = stored n xs v (omega (arith, h)) in
      (top, x ∷ ys, got, rw put refl, rest, omega (arith, le))

  -- A native function called by `su_call` that pushes its result and returns it, where a result is wanted: the
  -- result does not end on top of the stack. It stands in the place of the callee, and above it is left what
  -- stood behind the callee: the first argument, or the result again if there is none.
  pub su_call-native :
      (m m' : Machine N) (fuel narg nret p : ℕ) (v : Value N)
      → fetch m.stack narg ≡ ok (object su_nativefunc p)
      → length m.frames < max_calls
      → platform.native p
          (record m { narg = narg; frames = host_frame platform m p narg ∷ m.frames })
          narg
        ≡ ok (m', true)
      → m'.stack ≡ v ∷ m.stack
      → 1 ≤ nret
      → (top : Value N) × (fetch (v ∷ m.stack) narg ≡ ok top)
        × (su_call platform fuel m narg nret
            ≡ ok (
                some (record {
                  pc = m.pc;
                  narg = m.narg;
                  stack = top ∷ v ∷ drop (suc narg) m.stack;
                  frames = drop 1 m'.frames;
                  func = m.func;
                  heap = m'.heap;
                })))
  unfolding su_call native_result
  su_call-native m m' fuel narg nret p v callee free runs st some_ret =
      let (n, lt) = length-drop_arguments narg m.stack (object su_nativefunc p) callee in
      let (top, ys, got, put, rest, le) = stored narg (v ∷ m.stack) v (omega (arith, lt)) in
      let place : suc (length m.stack) - 1 - (length m.stack - narg - 1) ≡ suc narg =
        omega (arith, lt) in
      (
        top,
        got,
        rw
            (
              callee,
              lt→ltb (length m.frames) max_calls free,
              runs,
              ==-ne nret 0 (λ e. omega (arith, e, some_ret)),
              st,
              lt→ltb (length m.stack - narg - 1) (suc (length m.stack)) (omega arith),
              place,
              put,
              le→leb narg (length ys) le,
              rest,
            )
            refl,
      )
