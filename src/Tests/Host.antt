-- ===== src/Tests/Host.antt =====
-- Calls of src/vm/core.c from outside the machine.
use saurus.Base.{ℕ, ◌≡◌, refl, true, some, [], ◌∷◌, ok, fetch, ◌>>=◌, arith}
use saurus.HashMap.Shape.{IsTable}
use saurus.HashMap.Table.{HashTable, map_create_empty, map_length}
use saurus.Reader.{verify_header, buffer_open}
use saurus.Tests.Machine.{heap, platform, caller}
use saurus.Vm.{Value, nil, boolean, number, object}
use saurus.Vm.CallBounds.{InBounds}
use saurus.Vm.Call.{entered, su_call}
use saurus.Vm.Calls.{op_return}
use saurus.Vm.Closures.{global_name, find_global, get_global}
use saurus.Vm.Hash.{value_eq, value_equality}
use saurus.Vm.Host.{su_init, native_load}
use saurus.Vm.HostCalls.{su_call-returns, su_call-native}
use saurus.Vm.Interned.{Interns}
use saurus.Vm.Starts.{global_hash, su_init-Starts}
use saurus.Vm.State.{Machine, Platform}
use saurus.Vm.Step.{turn, here, next}

-- The second function returns its argument.
abbrev asking : Machine ℕ
asking = record caller { stack = number 5 ∷ object 6 1 ∷ nil ∷ []; frames = [] }

abbrev at_return : Machine ℕ
at_return = record (entered platform asking 1 1) {
  pc = 1;
  stack = number 5 ∷ number 5 ∷ object 6 1 ∷ nil ∷ [];
}

first_turn : turn platform (entered platform asking 1 1) ≡ ok (some at_return)
unfolding turn
first_turn = refl

return_turn : turn platform at_return ≡ (op_return at_return >>= λ m'. ok (some m'))
unfolding turn
return_turn = refl

su_call-returns_example :
    (fuel : ℕ) × (su_call platform fuel asking 1 1
      ≡ ok (some (record asking { stack = number 5 ∷ nil ∷ [] })))
su_call-returns_example =
    su_call-returns platform asking at_return 1 1 1 _ _ (number 5) (number 5 ∷ object 6 1 ∷ []) refl
      (omega arith) (omega arith) refl refl (next here first_turn) return_turn refl refl refl
      (omega arith)

-- Native functions that return 9.
abbrev nine : Platform ℕ
nine = record platform { native = λ p m narg. ok (record m { stack = number 9 ∷ m.stack }, true) }

abbrev asking_native : Machine ℕ
asking_native = record caller { stack = number 5 ∷ object 7 0 ∷ nil ∷ []; frames = [] }

su_call-native_example :
    (top : Value ℕ) × (fetch (number 9 ∷ number 5 ∷ object 7 0 ∷ nil ∷ []) 1 ≡ ok top)
    × (su_call nine 0 asking_native 1 1
        ≡ ok (some (record asking_native { stack = top ∷ number 9 ∷ nil ∷ [] })))
su_call-native_example =
    su_call-native nine asking_native _ 0 1 1 0 (number 9) refl (omega arith) refl refl
      (omega arith)

su_init-Starts_example :
    (m : Machine ℕ) × (su_init platform ≡ ok m)
    × InBounds m
    × Interns m.heap
    × (m.stack ≡ [])
    × (m.frames ≡ [])
    × (m.heap.string_objects
        ≡ record { hash = global_hash platform; str = global_name platform } ∷ [])
    × (map_length m.heap.strings ≡ 1)
    × (m.heap.locals ≡ object 9 0 ∷ [])
    × (fetch m.heap.maps 0 ≡ ok map_create_empty)
    × (get_global platform m.heap (object 3 0) ≡ ok (object 10 0))
    × (globals : HashTable (Value ℕ) (Value ℕ)) × (fetch m.heap.maps m.heap.globals ≡ ok globals)
    × IsTable (value_equality platform) globals
    × (map_length globals ≡ 1)
    × ((key v : Value ℕ)
        → find_global platform m.heap key ≡ ok (some v)
        → (value_eq platform key (object 3 0) ≡ true) × (v ≡ object 10 0))
su_init-Starts_example = su_init-Starts platform

-- `load` of eight bytes that are no image gives true.
abbrev loading : Machine ℕ
loading = record caller {
  narg = 1;
  stack = object 3 0 ∷ nil ∷ [];
  heap = record heap {
    string_objects = record { hash = 1; str = 0 ∷ 0 ∷ 0 ∷ 0 ∷ 0 ∷ 0 ∷ 0 ∷ 0 ∷ [] } ∷ [];
  };
}

load_refused :
    native_load platform loading 1
    ≡ ok (record loading { stack = boolean true ∷ object 3 0 ∷ nil ∷ [] }, true)
unfolding native_load verify_header buffer_open
load_refused = refl
