-- ===== src/Vm/Bounds.antt =====
-- The stack and the frames of src/vm/core.c stay within their arrays.
use saurus.Base.{
  ◌+◌, length, ltb, fetch, Ensures, ok-Ensures, bind-Ensures, if-Ensures, assert-Ensures, arith,
  Option, none, some,
}
use saurus.Vm.{push_value, stack_size, execute, binary}
use saurus.Vm.Closures.{lambda, prot_at, prot_prot, prot_inst, get_global, set_global}
use saurus.Vm.Depth.{binary-Moves, execute-Moves}
use saurus.Vm.State.{Function, Machine, Platform, stack_at}
use saurus.Vm.Step.{
  Code, simple, eq, return, copy, call, tcall, getglobal, setglobal, load, make_lambda,
  signed_short, decode, perform, perform_decoded, turn, Turns, here, next,
}
use saurus.Vm.CallBounds.{
  InBounds, NativeLaws, pushed_fits, lambda-Ensures, op_return-Ensures, op_call-Ensures,
  op_tcall-Ensures,
}

abbrev Within : {N : Type 0} → Option (Machine N) → Type 0
Within none = Unit
Within (some m) = InBounds m

module _ {N : Type 0} (platform : Platform N) (laws : NativeLaws platform) where
  perform-Ensures :
      (m : Machine N) (f : Function N) (code : Code)
      → InBounds m
      → Ensures InBounds (perform platform m f code)
  unfolding perform
  perform-Ensures m f (simple i) v =
      bind-Ensures InBounds (execute platform.double f.constants i m.stack) _ λ stack ran.
        ok-Ensures InBounds _ (record {
          stack_fits =
              (execute-Moves platform.double f.constants i m.stack stack ran).1 v.stack_fits;
          frames_fit = v.frames_fit;
        })
  perform-Ensures m f eq v = bind-Ensures InBounds (binary m.stack _) _ λ stack ran.
      ok-Ensures InBounds _ (record {
        stack_fits = (binary-Moves m.stack stack _ ran).1 v.stack_fits;
        frames_fit = v.frames_fit;
      })
  perform-Ensures m f return v = op_return-Ensures m v
  perform-Ensures m f (copy a) v = bind-Ensures InBounds (fetch m.frames 0) _ λ frame found.
      bind-Ensures InBounds (stack_at m.stack (frame.stack_top + a)) _ λ val got.
        assert-Ensures InBounds (ltb (length m.stack) stack_size) _ λ room.
          ok-Ensures InBounds _
            (record { stack_fits = ground (arith, room); frames_fit = v.frames_fit })
  perform-Ensures m f (call a) v = op_call-Ensures platform laws m a v
  perform-Ensures m f (tcall a) v = op_tcall-Ensures platform laws m a v
  perform-Ensures m f (make_lambda a b) v =
      bind-Ensures InBounds (prot_at (prot_prot f.prot) a) _ λ prot found.
        bind-Ensures InBounds (lambda m.heap m.frames m.stack prot (signed_short b)) _ λ r made.
          ok-Ensures InBounds _ (record {
            stack_fits =
                (lambda-Ensures m.heap m.frames m.stack prot (signed_short b) v.stack_fits).holds r
                  made;
            frames_fit = v.frames_fit;
          })
  perform-Ensures m f (getglobal a) v = bind-Ensures InBounds (fetch f.constants a) _ λ key found.
      bind-Ensures InBounds (get_global platform m.heap key) _ λ val got.
        bind-Ensures InBounds (push_value m.stack val) _ λ stack pushed.
          ok-Ensures InBounds _ (record {
            stack_fits = pushed_fits m.stack stack val v.stack_fits pushed;
            frames_fit = v.frames_fit;
          })
  perform-Ensures m f (setglobal a) v = bind-Ensures InBounds (fetch f.constants a) _ λ key found.
      bind-Ensures InBounds (fetch m.stack 0) _ λ val top.
        bind-Ensures InBounds (set_global platform m.heap key val) _ λ heap set'.
          ok-Ensures InBounds _ (record { stack_fits = v.stack_fits; frames_fit = v.frames_fit })
  perform-Ensures m f (load a) v = bind-Ensures InBounds (fetch m.frames 0) _ λ frame found.
      bind-Ensures InBounds (stack_at m.stack (frame.stack_top + 1 + a)) _ λ val got.
        bind-Ensures InBounds (push_value m.stack val) _ λ stack pushed.
          ok-Ensures InBounds _ (record {
            stack_fits = pushed_fits m.stack stack val v.stack_fits pushed;
            frames_fit = v.frames_fit;
          })

  decoded-Ensures :
      (m : Machine N) (f : Function N) (code : Option Code)
      → InBounds m
      → Ensures InBounds (perform_decoded platform m f code)
  decoded-Ensures m f none v = record { holds = λ b e. absurd (cc) }
  decoded-Ensures m f (some code) v = perform-Ensures m f code v

  turn-Ensures : (m : Machine N) → InBounds m → Ensures Within (turn platform m)
  unfolding turn
  turn-Ensures m v = bind-Ensures Within (fetch m.heap.functions m.func) _ λ f found.
      if-Ensures Within (ltb m.pc (length (prot_inst f.prot))) _ _
        (λ more. bind-Ensures Within (fetch (prot_inst f.prot) m.pc) _ λ word read.
          bind-Ensures Within (perform_decoded platform m f (decode word)) _ λ m' ran.
            ok-Ensures Within (some m') ((decoded-Ensures m f (decode word) v).holds m' ran))
        (ok-Ensures Within none tt)

  -- In every state that `vm_loop` reaches, the stack has at most 512 values and there are at most 128 frames,
  -- if that was so at first. The instructions are arbitrary; native functions are asked to keep it.
  pub Turns-InBounds : {m m' : Machine N} → InBounds m → Turns platform m m' → InBounds m'
  Turns-InBounds v here = v
  Turns-InBounds v (next {m'} {m''} before e) =
      (turn-Ensures m' (Turns-InBounds v before)).holds (some m'') e
