-- ===== src/Tests/Lists.antt =====
-- Lists of src/vm/libseq.c on a small machine.
use saurus.Base.{ℕ, ◌≡◌, refl, true, [], ◌∷◌, ok, fault, arith}
use saurus.Tests.Machine.{heap, caller}
use saurus.Vm.{Value, nil, number, object}
use saurus.Vm.Lists.{IsList, native_list-IsList, native_cons-IsList, native_first-native_rest}
use saurus.Vm.Sequences.{native_list, native_cons, native_first, native_rest}
use saurus.Vm.State.{Machine, cell_object, string_iterator}

-- (list 4 5)
abbrev listing : Machine ℕ
listing = record caller { narg = 2; stack = number 5 ∷ number 4 ∷ object 7 0 ∷ [] }

native_list-IsList_example :
    (m' : Machine ℕ) × (v : Value ℕ) × (native_list listing 2 ≡ ok (m', true))
    × (m'.stack ≡ v ∷ listing.stack)
    × IsList m'.heap v (number 4 ∷ number 5 ∷ [])
native_list-IsList_example = native_list-IsList listing 2 (omega arith) (omega arith) (omega arith)

-- (cons nil 5)
native_cons-IsList_example :
    (m' : Machine ℕ) × (w : Value ℕ) × (native_cons
        (record listing { stack = number 5 ∷ nil ∷ [] })
        2
      ≡ ok (m', true))
    × (m'.stack ≡ w ∷ number 5 ∷ nil ∷ [])
    × IsList m'.heap w (number 5 ∷ [])
native_cons-IsList_example =
    native_cons-IsList (record listing { stack = number 5 ∷ nil ∷ [] }) (number 5) nil [] [] refl
      refl (omega arith) refl

-- A list of 4 and 5, taken apart.
abbrev listed : Machine ℕ
listed = record caller {
  narg = 1;
  stack = object 21 1 ∷ [];
  heap = record heap {
    seqs = cell_object (number 5) nil ∷ cell_object (number 4) (object 21 0) ∷ [];
  };
}

native_first-native_rest_example :
    (native_first listed 1 ≡ ok (record listed { stack = number 4 ∷ object 21 1 ∷ [] }, true))
    × (r : Value ℕ) × (native_rest listed 1
        ≡ ok (record listed { stack = r ∷ object 21 1 ∷ [] }, true))
    × IsList listed.heap r (number 5 ∷ [])
native_first-native_rest_example =
    native_first-native_rest listed (object 21 1) (number 4) (number 5 ∷ []) [] refl refl
      (omega arith) (1, object 21 0, refl, refl, (0, nil, refl, refl, refl))

-- The first of a sequence over a string is not a character.
string_first :
    native_first
      (record listed {
        stack = object 22 0 ∷ [];
        heap = record heap { seqs = string_iterator 0 0 ∷ [] };
      })
      1
    ≡ fault
unfolding native_first
string_first = refl
