-- ===== src/Vm/Returns.antt =====
-- Calls, tail calls and returns of src/vm/core.c fit together.
use saurus.Base.{
  ok-injective, fetch-lt, ℕ, zero, suc, ◌+◌, ◌-◌, ◌≤◌, ◌<◌, ◌≡◌, refl, ap, sym, ◌∙◌, List, [], ◌∷◌,
  ◌++◌, length, length-append, take, drop, leb, ltb, le→leb, lt→ltb, ok, fetch, Ensures, ok-Ensures,
  bind-Ensures, assert-Ensures, arith,
}
use saurus.Vm.{Value, object, stack_size}
use saurus.Reader.Stream.{length-drop}
use saurus.Vm.CallBounds.{length-cut_to}
use saurus.Vm.Calls.{take_arguments, call_function, leave, op_return, call_value, op_call, op_tcall}
use saurus.Vm.State.{Frame, Machine, Platform, max_calls, cut_to, su_function}

module _ {ℓ} {A : Type ℓ} where
  drop-append : (xs ys : List A) → drop (length xs) (xs ++ ys) ≡ ys
  drop-append [] ys = refl
  drop-append (x ∷ xs) ys = drop-append xs ys

  cut_to-append : (xs ys : List A) → cut_to (xs ++ ys) (length ys) ≡ ok ys
  cut_to-append xs ys =
      let n : length (xs ++ ys) - length ys ≡ length xs = omega (arith, length-append xs ys) in
      rw (le→leb (length ys) (length (xs ++ ys)) (omega (arith, length-append xs ys)), n)
        (ap ok (drop-append xs ys))

  pub fetch-take :
      (n : ℕ) (xs ys : List A) (x : A) → fetch xs n ≡ ok x → fetch (take (suc n) xs ++ ys) n ≡ ok x
  fetch-take n [] ys x e = absurd (cc)
  fetch-take zero (y ∷ xs) ys x e = e
  fetch-take (suc n) (y ∷ xs) ys x e = fetch-take n xs ys x e

  length-take : (n : ℕ) (xs : List A) → n ≤ length xs → length (take n xs) ≡ n
  length-take zero xs h = refl
  length-take (suc n) [] h = absurd (omega (arith, h))
  length-take (suc n) (x ∷ xs) h = ap suc (length-take n xs (omega (arith, h)))

module _ {N : Type 0} where
  -- A return to a frame at whose place the stack is still what it was.
  pub op_return_lem :
      (m : Machine N) (frame : Frame) (rest : List Frame) (v : Value N)
      (above below : List (Value N))
      → m.frames ≡ frame ∷ rest
      → m.stack ≡ v ∷ above ++ below
      → length below ≡ frame.stack_top
      → frame.stack_top < stack_size
      → op_return m
        ≡ ok (record {
          pc = frame.ret_addr;
          narg = m.narg;
          stack = v ∷ below;
          frames = rest;
          func = frame.func;
          heap = m.heap;
        })
  unfolding op_return
  op_return_lem m frame rest v above below f s n lt =
      rw
        (
          f,
          s,
          ← n,
          cut_to-append (v ∷ above) below,
          lt→ltb (length below) stack_size (omega (arith, lt, n)),
        )
        refl

  call_function-frames :
      (m : Machine N) (num tmp callee : ℕ)
      → Ensures
          (λ (m' : Machine N).
            m'.frames ≡ record { func = m.func; stack_top = tmp; ret_addr = m.pc + 1 } ∷ m.frames)
          (call_function m num tmp callee)
  unfolding call_function
  call_function-frames m num tmp callee =
      assert-Ensures _ (ltb (length m.frames) max_calls) _ λ free.
        bind-Ensures _ (fetch m.heap.functions callee) _ λ func found.
          bind-Ensures _ (take_arguments m.heap m.stack func.narg num) _ λ r taken.
            assert-Ensures _ (leb (length r.0 + length func.upvalues) stack_size) _
              λ room. ok-Ensures _ _ refl

  pub length-drop_arguments :
      (num : ℕ) (xs : List (Value N)) (x : Value N)
      → fetch xs num ≡ ok x
      → (length (drop (num + 1) xs) ≡ length xs - num - 1) × (num < length xs)
  length-drop_arguments num xs x e = (omega (arith, length-drop (num + 1) xs), fetch-lt xs num x e)

module _ {N : Type 0} (platform : Platform N) where
  call_closure :
      (m : Machine N) (num p : ℕ)
      → fetch m.stack num ≡ ok (object su_function p)
      → op_call platform m num ≡ call_function m num (length m.stack - num - 1) p
  unfolding op_call call_value
  call_closure m num p e = rw e refl

  -- A call of a closure, whatever the closure does until it returns with the caller's frame on top and the
  -- stack below the callee as it was: `OP_RETURN` goes on behind the call, in the calling function, with its
  -- frames, and with the stack of the call where the result stands for the callee and its arguments.
  pub op_call-op_return :
      (m m₁ m₂ : Machine N) (num p : ℕ) (v : Value N) (above : List (Value N))
      → fetch m.stack num ≡ ok (object su_function p)
      → op_call platform m num ≡ ok m₁
      → length m.stack ≤ stack_size
      → m₂.frames ≡ m₁.frames
      → m₂.stack ≡ v ∷ above ++ drop (num + 1) m.stack
      → op_return m₂
        ≡ ok (record {
          pc = m.pc + 1;
          narg = m₂.narg;
          stack = v ∷ drop (num + 1) m.stack;
          frames = m.frames;
          func = m.func;
          heap = m₂.heap;
        })
  op_call-op_return m m₁ m₂ num p v above callee called fits same kept =
      let (n, lt) = length-drop_arguments num m.stack (object su_function p) callee in
      let f =
        (call_function-frames m num (length m.stack - num - 1) p).holds m₁
          (sym (call_closure m num p callee) ∙ called) in
      op_return_lem m₂ _ m.frames v above (drop (num + 1) m.stack) (same ∙ f) kept n
        (omega (arith, fits, lt))

  -- The frame that a tail call of a closure makes.
  abbrev FrameAgain : Machine N → Machine N → Type 0
  FrameAgain m m' =
      (frame : Frame) × (fetch m.frames 0 ≡ ok frame)
      × (m'.frames
          ≡ record {
            func = frame.func;
            stack_top = frame.stack_top;
            ret_addr = frame.ret_addr - 1 + 1;
          }
            ∷ drop 1 m.frames)

  op_tcall-FrameAgain :
      (m : Machine N) (num p : ℕ)
      → fetch m.stack num ≡ ok (object su_function p)
      → Ensures (FrameAgain m) (op_tcall platform m num)
  unfolding op_tcall
  op_tcall-FrameAgain m num p callee = bind-Ensures _ (fetch m.frames 0) _ λ frame found.
      bind-Ensures _ (cut_to m.stack frame.stack_top) _ λ below cut.
        assert-Ensures _ (leb (frame.stack_top + (num + 1) + (num + 1)) (length m.stack)) _ λ apart.
          let one : num + 1 ≡ suc num = omega arith in
          let moved : fetch (take (num + 1) m.stack ++ below) num ≡ ok (object su_function p) =
            rw one (fetch-take num m.stack below (object su_function p) callee) in
          let place : length (take (num + 1) m.stack ++ below) - num - 1 ≡ frame.stack_top =
            ground (
              arith,
              apart,
              (length-cut_to m.stack frame.stack_top below cut).0,
              length-append (take (num + 1) m.stack) below,
              length-take (num + 1) m.stack,
            ) in
          record {
            holds = λ m' e.
                let f =
                  (call_function-frames (leave m frame num below) num
                      (length (take (num + 1) m.stack ++ below) - num - 1) p).holds
                    m' (sym (call_closure (leave m frame num below) num p moved) ∙ e) in
                (
                  frame,
                  found,
                  f
                      ∙ ap
                          (λ (k : ℕ).
                            record {
                              func = frame.func;
                              stack_top = k;
                              ret_addr = frame.ret_addr - 1 + 1;
                            }
                            ∷ drop 1 m.frames)
                          place,
                );
          }

  -- A tail call of a closure keeps the frames as they are, so the closure returns with them to where the
  -- function that made the tail call would have returned: behind the call of that function, with the result
  -- in its place.
  pub op_tcall-op_return :
      (m m₁ m₂ : Machine N) (frame : Frame) (rest : List Frame) (below : List (Value N)) (num p : ℕ)
      (v : Value N) (above : List (Value N))
      → m.frames ≡ frame ∷ rest
      → 1 ≤ frame.ret_addr
      → fetch m.stack num ≡ ok (object su_function p)
      → cut_to m.stack frame.stack_top ≡ ok below
      → op_tcall platform m num ≡ ok m₁
      → frame.stack_top < stack_size
      → m₂.frames ≡ m₁.frames
      → m₂.stack ≡ v ∷ above ++ below
      → (m₁.frames ≡ m.frames)
        × (op_return m₂
            ≡ ok (record {
              pc = frame.ret_addr;
              narg = m₂.narg;
              stack = v ∷ below;
              frames = rest;
              func = frame.func;
              heap = m₂.heap;
            }))
  unfolding op_tcall
  op_tcall-op_return m m₁ m₂ frame rest below num p v above fr ret callee cut called lt same kept =
      let (again, found, f) = (op_tcall-FrameAgain m num p callee).holds m₁ called in
      let it : again ≡ frame = ok-injective (sym found ∙ ap (λ l. fetch l 0) fr) in
      let back : frame.ret_addr - 1 + 1 ≡ frame.ret_addr = omega (arith, ret) in
      let kept_frames : m₁.frames ≡ frame ∷ rest =
        f
        ∙ ap
            (λ (g : Frame).
              record { func = g.func; stack_top = g.stack_top; ret_addr = g.ret_addr - 1 + 1 }
              ∷ drop 1 m.frames)
            it
        ∙ ap
            (λ l.
              record {
                func = frame.func;
                stack_top = frame.stack_top;
                ret_addr = frame.ret_addr - 1 + 1;
              }
              ∷ drop 1 l)
            fr
        ∙ ap
            (λ (k : ℕ).
              record { func = frame.func; stack_top = frame.stack_top; ret_addr = k } ∷ rest)
            back in
      (
        kept_frames ∙ sym fr,
        op_return_lem m₂ frame rest v above below (same ∙ kept_frames) kept
            (length-cut_to m.stack frame.stack_top below cut).0 lt,
      )
