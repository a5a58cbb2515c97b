-- ===== src/Tests/Machine.antt =====
-- Calls of src/vm/core.c on a small machine; the numbers are natural numbers.
use saurus.Base.{
  ℕ, ◌+◌, ◌-◌, ◌*◌, ◌/◌, ◌%◌, ◌^◌, ◌≡◌, refl, true, false, some, List, [], ◌∷◌, ltb, leb, ◌==◌, ok,
  fault, pos, arith,
}
use saurus.HashMap.Table.{map_create_empty, map_get, map_length}
use saurus.HashMap.Trie.{size}
use saurus.Image.{prototype, no_more, InstructionWord}
use saurus.Vm.{nil, number, object, Double}
use saurus.Vm.CallBounds.{InBounds}
use saurus.Vm.Calls.{op_call, op_tcall, op_return}
use saurus.Vm.Closures.{captured}
use saurus.Vm.Library.{with_libseq, call_libseq}
use saurus.Vm.LibraryRuns.{Turns-libseq}
use saurus.Vm.Interned.{Interns, Interned, string_from_db-Interned}
use saurus.Vm.Natives.{vector}
use saurus.Vm.Returns.{op_call-op_return, op_tcall-op_return}
use saurus.Vm.State.{Frame, Function, Heap, Machine, Platform}
use saurus.Vm.Step.{turn, here, next}
use saurus.Vm.Strings.{string_from_db}

abbrev pub naturals : Double ℕ
naturals = record {
  add = λ a b. a + b;
  sub = λ a b. a - b;
  mul = λ a b. a * b;
  div = λ a b. a / b;
  pow = λ a b. a ^ b;
  mod_int = λ a b. ok (a % b);
  negate = λ a. a;
  less = ltb;
  less_equal = leb;
}

-- The native functions return nil.
abbrev pub platform : Platform ℕ
platform = record {
  double = naturals;
  equal = ◌==◌;
  to_int = λ n. ok (pos n);
  of_int = λ n. n;
  memory = record { bytes = λ n. n ∷ []; value = λ bytes. 0 };
  address = λ t p. t ∷ p ∷ [];
  unwritten_eq = λ a b. true;
  native = λ p m narg. ok (m, false);
}

abbrev pub code : List InstructionWord → Function ℕ
code inst = record {
  narg = pos 1;
  prot = prototype inst [] [] no_more [] [];
  constants = [];
  upvalues = [];
}

-- The first function calls the second, which returns its argument.
abbrev pub heap : Heap ℕ
heap = record {
  functions =
      code (record { id = 19; a = 1; b = 0 } ∷ record { id = 18; a = 0; b = 0 } ∷ [])
      ∷ code (record { id = 24; a = 0; b = 0 } ∷ record { id = 18; a = 0; b = 0 } ∷ [])
      ∷ [];
  string_objects = [];
  vectors = [];
  maps = map_create_empty ∷ [];
  locals = [];
  seqs = [];
  strings = map_create_empty;
  globals = 0;
}

abbrev pub base : Frame
base = record { func = 0; stack_top = 0; ret_addr = 65535 }

abbrev pub caller : Machine ℕ
caller = record {
  pc = 0;
  narg = 0;
  stack = number 5 ∷ object 6 1 ∷ nil ∷ object 6 0 ∷ [];
  frames = base ∷ [];
  func = 0;
  heap = heap;
}

abbrev called : Machine ℕ
called = record {
  pc = 0;
  narg = 0;
  stack = number 5 ∷ object 6 1 ∷ nil ∷ object 6 0 ∷ [];
  frames = record { func = 0; stack_top = 2; ret_addr = 1 } ∷ base ∷ [];
  func = 1;
  heap = heap;
}

abbrev loaded : Machine ℕ
loaded = record called { pc = 1; stack = number 5 ∷ number 5 ∷ object 6 1 ∷ nil ∷ object 6 0 ∷ [] }

call_runs : op_call platform caller 1 ≡ ok called
unfolding op_call
call_runs = refl

-- (vector 5)
abbrev asking : Machine ℕ
asking = record caller { stack = number 5 ∷ object 7 5 ∷ nil ∷ [] }

abbrev answered : Machine ℕ
answered = record caller {
  pc = 1;
  stack = object 8 0 ∷ nil ∷ [];
  heap = record heap {
    vectors = record { cnt = 1; depth = 0; root = []; tail = number 5 ∷ [] } ∷ [];
  };
}

native_turn : turn (with_libseq platform) asking ≡ ok (some answered)
unfolding turn call_libseq vector
native_turn = refl

Turns-libseq_example : InBounds answered
Turns-libseq_example =
    Turns-libseq platform {m = asking} {m' = answered} (omega arith) (next here native_turn)

op_call-op_return_example :
    op_return loaded
    ≡ ok (record {
      pc = 1;
      narg = 0;
      stack = number 5 ∷ nil ∷ object 6 0 ∷ [];
      frames = base ∷ [];
      func = 0;
      heap = heap;
    })
op_call-op_return_example =
    op_call-op_return platform caller called loaded 1 1 (number 5) (number 5 ∷ object 6 1 ∷ []) refl
      call_runs (omega arith) refl refl

-- The same call in the place of a return.
abbrev replaced : Machine ℕ
replaced = record caller { stack = number 5 ∷ object 6 1 ∷ []; func = 1 }

tail_call_runs : op_tcall platform caller 1 ≡ ok replaced
unfolding op_tcall
tail_call_runs = refl

op_tcall-op_return_example :
    (replaced.frames ≡ caller.frames)
    × (op_return (record replaced { stack = number 5 ∷ number 5 ∷ object 6 1 ∷ [] })
        ≡ ok (record {
          pc = 65535;
          narg = 0;
          stack = number 5 ∷ [];
          frames = [];
          func = 0;
          heap = heap;
        }))
op_tcall-op_return_example =
    op_tcall-op_return platform caller replaced
      (record replaced { stack = number 5 ∷ number 5 ∷ object 6 1 ∷ [] }) base [] [] 1 1 (number 5)
      (number 5 ∷ object 6 1 ∷ []) refl (omega arith) refl refl tail_call_runs (omega arith) refl
      refl

-- A tail call with more values than the frame has moves them over themselves.
overlapping :
    op_tcall platform (record caller { stack = number 5 ∷ object 6 1 ∷ object 6 0 ∷ [] }) 1 ≡ fault
unfolding op_tcall
overlapping = refl

-- An upvalue of the second level out is read in the frame of the caller, whichever function that is.
caller_variable :
    captured {N = ℕ}
      (record { func = 3; stack_top = 2; ret_addr = 1 } ∷ base ∷ [])
      (number 8 ∷ object 6 4 ∷ number 7 ∷ object 6 0 ∷ [])
      (record { lv = 2; idx = 0 })
    ≡ ok (number 7)
unfolding captured
caller_variable = refl

empty_Interns : Interns heap
unfolding map_get size
empty_Interns = record {
  table = record { root = tt; count = refl };
  named = λ h p lt e. absurd (cc);
}

string_from_db-Interned_example :
    (p : ℕ) × (heap' : Heap ℕ) × (string_from_db heap 9 (97 ∷ 0 ∷ []) ≡ ok (p, heap'))
    × Interned heap empty_Interns 9 (omega arith) (97 ∷ 0 ∷ []) p heap'
unfolding map_length
string_from_db-Interned_example =
    string_from_db-Interned heap empty_Interns 9 (omega arith) (97 ∷ 0 ∷ []) (omega arith)
