-- ===== src/Vm/TailCalls.antt =====
-- Tail calls of vectors and maps in src/vm/core.c.
use saurus.Base.{
  ℕ, zero, suc, ◌+◌, ◌-◌, ◌≤◌, ◌<◌, ◌≡◌, refl, ap, sym, ◌∙◌, inl, inr, ◌⊎◌, List, [], ◌∷◌, ◌++◌,
  length, take, le→leb, lt→ltb, ==-ne, Run, ok, raise, fault, fetch, ◌>>=◌, arith,
}
use saurus.Vm.{Value, object, push_value, stack_size}
use saurus.Vm.CallBounds.{length-cut_to}
use saurus.Vm.Calls.{element, call_collection, call_value, leave, op_return, op_call, op_tcall}
use saurus.Vm.Returns.{fetch-take}
use saurus.Vm.State.{Frame, Machine, Platform, cut_to, su_vector, su_map}

pub bind_then :
    {A B C : Type 0} (r : Run A) (f : A → Run C) (g : A → Run B) (k : B → Run C)
    → ((a : A) → f a ≡ (g a >>= k))
    → (r >>= f) ≡ ((r >>= g) >>= k)
bind_then (ok a) f g k h = h a
bind_then (raise e) f g k h = refl
bind_then fault f g k h = refl

cut_to-cons :
    {A : Type 0} (x : A) (xs : List A) (n : ℕ) → n ≤ length xs → cut_to (x ∷ xs) n ≡ cut_to xs n
cut_to-cons x xs n h =
    let e : suc (length xs) - n ≡ suc (length xs - n) = omega (arith, h) in
    rw (le→leb n (suc (length xs)) (omega (arith, h)), le→leb n (length xs) h, e) refl

module _ {N : Type 0} (platform : Platform N) where
  collection_call :
      (m : Machine N) (num tmp t p : ℕ)
      → (t ≡ su_vector) ⊎ (t ≡ su_map)
      → call_value platform m num tmp (object t p) ≡ call_collection platform m num t p
  unfolding call_value
  collection_call m num tmp t p (inl e) = rw e refl
  collection_call m num tmp t p (inr e) = rw e refl

  module _ (m : Machine N) (frame : Frame) (rest : List Frame) (below : List (Value N)) (t p : ℕ)
      (fr : m.frames ≡ frame ∷ rest) (ret : 1 ≤ frame.ret_addr)
      (cut : cut_to m.stack frame.stack_top ≡ ok below) (lt : frame.stack_top < stack_size)
      (fits : length m.stack ≤ stack_size) where
    collection_twice :
        (num : ℕ) (stack : List (Value N))
        → m.stack ≡ stack
        → frame.stack_top + (num + 1) + (num + 1) ≤ length m.stack
        → call_collection platform (leave m frame num below) num t p
          ≡ (call_collection platform m num t p >>= op_return)
    unfolding call_collection op_return push_value
    collection_twice zero stack s room = refl
    collection_twice (suc (suc num)) stack s room =
        rw
          (
            ==-ne (suc (suc num)) 0 (λ e. omega (arith, e)),
            ==-ne (suc (suc num)) 1 (λ e. omega (arith, e)),
          )
          refl
    collection_twice (suc zero) [] s room = absurd (omega (arith, room, ap length s))
    collection_twice (suc zero) (x ∷ []) s room = absurd (omega (arith, room, ap length s))
    collection_twice (suc zero) (x ∷ y ∷ xs) s room =
        let size : length m.stack ≡ suc (suc (length xs)) = ap length s in
        let low : length below ≡ frame.stack_top =
          (length-cut_to m.stack frame.stack_top below cut).0 in
        let back : frame.ret_addr - 1 + 1 ≡ frame.ret_addr = omega (arith, ret) in
        let same : cut_to xs frame.stack_top ≡ ok below =
          sym (cut_to-cons y xs frame.stack_top (omega (arith, room, size)))
          ∙ sym (cut_to-cons x (y ∷ xs) frame.stack_top (omega (arith, room, size)))
          ∙ ap (λ l. cut_to l frame.stack_top) (sym s)
          ∙ cut in
        rw s (
          bind_then (element platform m.heap t p x) _ _ op_return λ v.
            rw
              (
                le→leb 2 (suc (suc (length below))) (omega arith),
                le→leb 2 (suc (suc (length xs))) (omega arith),
                lt→ltb (length below) stack_size (omega (arith, low, lt)),
                lt→ltb (length xs) stack_size (omega (arith, size, fits)),
                fr,
                cut_to-cons v xs frame.stack_top (omega (arith, room, size)),
                same,
                lt→ltb frame.stack_top stack_size lt,
                back,
              )
              refl)

    -- A tail call of a vector or a map, with an argument or a wrong number of them, is the call and then the
    -- return, if the frame lies far enough below for its copy.
    pub op_tcall-op_call :
        (num : ℕ)
        → fetch m.stack num ≡ ok (object t p)
        → (t ≡ su_vector) ⊎ (t ≡ su_map)
        → frame.stack_top + (num + 1) + (num + 1) ≤ length m.stack
        → op_tcall platform m num ≡ (op_call platform m num >>= op_return)
    unfolding op_tcall op_call
    op_tcall-op_call num callee kind room =
        let one : num + 1 ≡ suc num = omega arith in
        let moved : fetch (take (num + 1) m.stack ++ below) num ≡ ok (object t p) =
          rw one (fetch-take num m.stack below (object t p) callee) in
        let copied = length (take (num + 1) m.stack ++ below) - num - 1 in
        let tail : op_tcall platform m num
            ≡ call_value platform (leave m frame num below) num copied (object t p) =
          rw
            (fr, cut, le→leb (frame.stack_top + (num + 1) + (num + 1)) (length m.stack) room, moved)
            refl in
        let call : op_call platform m num
            ≡ call_value platform m num (length m.stack - num - 1) (object t p) =
          rw callee refl in
        tail
        ∙ collection_call (leave m frame num below) num copied t p kind
        ∙ collection_twice num m.stack refl room
        ∙ sym (
            ap (λ r. r >>= op_return)
              (call ∙ collection_call m num (length m.stack - num - 1) t p kind))
