-- ===== src/Vm/CallBounds.antt =====
-- Calls and returns of src/vm/core.c keep the stack and the frames within their arrays.
use saurus.Base.{
  fetch-lt, ok-injective, ℕ, ◌+◌, ◌-◌, ◌≤◌, ◌<◌, ◌≡◌, ap, ◌==◌, Bool, List, length, length-append,
  take, drop, reverse, ltb, leb, ok, fault, fetch, Ensures, ok-Ensures, raise-Ensures, bind-Ensures,
  if-Ensures, assert-Ensures, ℤ, pos, negsuc, arith, Bool-cases, inl, inr, argument_count,
  not_callable, no_argument, not_implemented, length-drop_le, length-take_le, length-reverse,
}
use saurus.Vm.{Value, nil, boolean, number, object, push_value, su_pop, stack_size}
use saurus.Vm.Calls.{
  take_arguments, call_function, op_return, call_native, element, call_collection, call_value,
  op_call, op_tcall, leave, returned_value,
}
use saurus.Image.{Prototype}
use saurus.Vector.{vector_create_empty}
use saurus.Vm.Closures.{push_all, push_varg, lambda, captured_all, prot_constants, prot_upvalues}
use saurus.Vm.Strings.{create_values}
use saurus.Vm.Depth.{drop-depth, push-Moves, pop-Moves}
use saurus.Vm.State.{
  Frame, Heap, Machine, Platform, max_calls, cut_to, su_function, su_nativefunc, su_vector, su_map,
}

pub record InBounds {N : Type 0} (m : Machine N) : Type 0 where
  pub stack_fits : length m.stack ≤ stack_size
  pub frames_fit : length m.frames ≤ max_calls

-- A native function that returns leaves the stack and the frames within their arrays.
pub record NativeLaws {N : Type 0} (platform : Platform N) : Type 0 where
  pub keeps :
      (p : ℕ) (m : Machine N) (narg : ℕ) (m' : Machine N) (returned : Bool)
      → InBounds m
      → platform.native p m narg ≡ ok (m', returned)
      → InBounds m'

pub length-cut_to {ℓ} :
    {A : Type ℓ} (xs : List A) (n : ℕ) (ys : List A)
    → cut_to xs n ≡ ok ys
    → (length ys ≡ n) × (n ≤ length xs)
length-cut_to xs n ys e = elim (Bool-cases (leb n (length xs))) [
  | inl k ↦
      let same : drop (length xs - n) xs ≡ ys = ok-injective (rw k at e) in
      (
        ground (arith, k, ap length same, drop-depth (length xs - n) xs (omega arith)),
        ground (arith, k),
      )
  | inr k ↦ let e' : fault ≡ ok ys = (rw k at e) in absurd (cc)
]

module _ {N : Type 0} where
  abbrev pub Fits : List (Value N) × Heap N → Type 0
  Fits r = length r.0 ≤ stack_size

  pub pushed_fits :
      (s s' : List (Value N)) (v : Value N)
      → length s ≤ stack_size
      → push_value s v ≡ ok s'
      → length s' ≤ stack_size
  pushed_fits s s' v h e = (push-Moves s s' v e).1 h

  pub popped_fits :
      (s s' : List (Value N)) (n : ℕ)
      → length s ≤ stack_size
      → su_pop s n ≡ ok s'
      → length s' ≤ stack_size
  popped_fits s s' n h e = (pop-Moves s s' n e).1 h

  push_varg-Ensures :
      (heap : Heap N) (stack : List (Value N)) (num : ℕ)
      → length stack ≤ stack_size
      → Ensures Fits (push_varg heap stack num)
  unfolding push_varg
  push_varg-Ensures heap stack num h = bind-Ensures Fits (su_pop stack num) _ λ below popped.
      bind-Ensures Fits (push_all vector_create_empty (reverse (take num stack))) _ λ vec made.
        bind-Ensures Fits (push_value below _) _ λ stack' pushed.
          ok-Ensures Fits _
            (pushed_fits below stack' _ (popped_fits stack below num h popped) pushed)

  pub lambda-Ensures :
      (heap : Heap N) (frames : List Frame) (stack : List (Value N)) (prot : Prototype N) (narg : ℤ)
      → length stack ≤ stack_size
      → Ensures Fits (lambda heap frames stack prot narg)
  unfolding lambda
  lambda-Ensures heap frames stack prot narg h =
      bind-Ensures Fits (create_values heap (prot_constants prot)) _ λ r constants.
        bind-Ensures Fits (captured_all frames stack (prot_upvalues prot)) _ λ upvalues found.
          bind-Ensures Fits (push_value stack _) _
            λ stack' pushed. ok-Ensures Fits _ (pushed_fits stack stack' _ h pushed)

  take_arguments-Ensures :
      (heap : Heap N) (stack : List (Value N)) (narg : ℤ) (num : ℕ)
      → length stack ≤ stack_size
      → Ensures Fits (take_arguments heap stack narg num)
  unfolding take_arguments
  take_arguments-Ensures heap stack (negsuc n) num h = push_varg-Ensures heap stack num h
  take_arguments-Ensures heap stack (pos n) num h =
      if-Ensures Fits (n == num) _ _ (λ _. ok-Ensures Fits _ h) (raise-Ensures Fits argument_count)

  call_function-Ensures :
      (m : Machine N) (num tmp callee : ℕ)
      → InBounds m
      → Ensures InBounds (call_function m num tmp callee)
  unfolding call_function
  call_function-Ensures m num tmp callee v =
      assert-Ensures InBounds (ltb (length m.frames) max_calls) _ λ free.
        bind-Ensures InBounds (fetch m.heap.functions callee) _ λ func found.
          bind-Ensures InBounds (take_arguments m.heap m.stack func.narg num) _ λ r taken.
            assert-Ensures InBounds (leb (length r.0 + length func.upvalues) stack_size) _ λ room.
              ok-Ensures InBounds _ (record {
                stack_fits = ground (
                  arith,
                  room,
                  length-append (reverse func.upvalues) r.0,
                  length-reverse func.upvalues,
                );
                frames_fit = ground (arith, free);
              })

  pub op_return-Ensures : (m : Machine N) → InBounds m → Ensures InBounds (op_return m)
  unfolding op_return
  op_return-Ensures m v = bind-Ensures InBounds (fetch m.frames 0) _ λ frame found.
      bind-Ensures InBounds (fetch m.stack 0) _ λ val top.
        bind-Ensures InBounds (cut_to m.stack frame.stack_top) _ λ below cut.
          assert-Ensures InBounds (ltb frame.stack_top stack_size) _ λ room.
            ok-Ensures InBounds _ (record {
              stack_fits = ground (arith, room, length-cut_to m.stack frame.stack_top below cut);
              frames_fit = omega (arith, v.frames_fit, length-drop_le 1 m.frames);
            })

module _ {N : Type 0} (platform : Platform N) (laws : NativeLaws platform) where
  call_native-Ensures :
      (m : Machine N) (num tmp callee : ℕ)
      → InBounds m
      → tmp < stack_size
      → Ensures InBounds (call_native platform m num tmp callee)
  unfolding call_native
  call_native-Ensures m num tmp callee v lt =
      bind-Ensures InBounds (platform.native callee (record m { narg = num }) num) _ λ r ran.
        bind-Ensures InBounds (returned_value r.0.stack r.1) _ λ val got.
          bind-Ensures InBounds (cut_to r.0.stack tmp) _ λ below cut.
            ok-Ensures InBounds _ (record {
              stack_fits = omega (arith, lt, (length-cut_to r.0.stack tmp below cut).0);
              frames_fit =
                  (laws.keeps callee (record m { narg = num }) num r.0 r.1
                    (record { stack_fits = v.stack_fits; frames_fit = v.frames_fit })
                    ran).frames_fit;
            })

  call_collection-Ensures :
      (m : Machine N) (num t p : ℕ)
      → InBounds m
      → Ensures InBounds (call_collection platform m num t p)
  unfolding call_collection
  call_collection-Ensures m num t p v =
      if-Ensures InBounds (num == 0) _ _ (λ _. raise-Ensures InBounds no_argument)
        (if-Ensures InBounds (num == 1) _ _
          (λ _. bind-Ensures InBounds (fetch m.stack 0) _ λ arg top.
            bind-Ensures InBounds (element platform m.heap t p arg) _ λ val got.
              bind-Ensures InBounds (su_pop m.stack 2) _ λ below popped.
                bind-Ensures InBounds (push_value below val) _ λ stack pushed.
                  ok-Ensures InBounds _ (record {
                    stack_fits =
                        pushed_fits below stack val
                          (popped_fits m.stack below 2 v.stack_fits popped) pushed;
                    frames_fit = v.frames_fit;
                  }))
          (raise-Ensures InBounds not_implemented))

  call_value-Ensures :
      (m : Machine N) (num tmp : ℕ) (callee : Value N)
      → InBounds m
      → tmp < stack_size
      → Ensures InBounds (call_value platform m num tmp callee)
  unfolding call_value
  call_value-Ensures m num tmp nil v lt = raise-Ensures InBounds not_callable
  call_value-Ensures m num tmp (boolean b) v lt = raise-Ensures InBounds not_callable
  call_value-Ensures m num tmp (number n) v lt = raise-Ensures InBounds not_callable
  call_value-Ensures m num tmp (object t p) v lt =
      if-Ensures InBounds (t == su_function) _ _ (λ _. call_function-Ensures m num tmp p v)
        (if-Ensures InBounds (t == su_nativefunc) _ _ (λ _. call_native-Ensures m num tmp p v lt)
          (if-Ensures InBounds (t == su_vector) _ _ (λ _. call_collection-Ensures m num t p v)
            (if-Ensures InBounds (t == su_map) _ _ (λ _. call_collection-Ensures m num t p v)
              (raise-Ensures InBounds not_callable))))

  pub op_call-Ensures :
      (m : Machine N) (num : ℕ) → InBounds m → Ensures InBounds (op_call platform m num)
  unfolding op_call
  op_call-Ensures m num v = bind-Ensures InBounds (fetch m.stack num) _ λ callee found.
      call_value-Ensures m num (length m.stack - num - 1) callee v
        (omega (arith, v.stack_fits, fetch-lt m.stack num callee found))

  pub op_tcall-Ensures :
      (m : Machine N) (num : ℕ) → InBounds m → Ensures InBounds (op_tcall platform m num)
  unfolding op_tcall
  op_tcall-Ensures m num v = bind-Ensures InBounds (fetch m.frames 0) _ λ frame found.
      bind-Ensures InBounds (cut_to m.stack frame.stack_top) _ λ below cut.
        assert-Ensures InBounds (leb (frame.stack_top + (num + 1) + (num + 1)) (length m.stack)) _
          λ apart. op_call-Ensures (leave m frame num below) num (record {
            stack_fits = ground (
              arith,
              apart,
              v.stack_fits,
              (length-cut_to m.stack frame.stack_top below cut).0,
              length-take_le (num + 1) m.stack,
              length-append (take (num + 1) m.stack) below,
            );
            frames_fit = omega (arith, v.frames_fit, length-drop_le 1 m.frames);
          })
