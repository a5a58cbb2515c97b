-- ===== src/Tests/Natives.antt =====
-- Native functions of src/vm/libseq.c on a small machine.
use saurus.Base.{
  ℕ, ◌≡◌, ◌⊎◌, refl, ap, sym, ◌∙◌, true, false, [], ◌∷◌, ==_refl, ==_symm, ok, fetch, pos, arith,
}
use saurus.HashMap.{leaf_node}
use saurus.Vm.Api.{su_map_insert, push}
use saurus.HashMap.Shape.{HashLaws}
use saurus.HashMap.Table.{HashTable, map_create_empty, map_insert, map_length, insert_keeps}
use saurus.HashMap.Trie.{size}
use saurus.HashMap.TableInsert.{Inserted}
use saurus.HashMap.Written.{EqualityLaws}
use saurus.Tests.Machine.{platform, caller}
use saurus.Vm.{Value, nil, boolean, number, object}
use saurus.Vm.Arguments.{su_check_arguments, su_check_arguments-fixed}
use saurus.Vm.Hash.{value_eq, value_equality, hash_value}
use saurus.Vm.NativeMaps.{map_set-persistent, map_set-map_get}
use saurus.Vm.Natives.{native_map_get, native_map_set}
use saurus.Vm.State.{Machine, su_map, su_vector}

value_eq_symm : (a b : Value ℕ) → value_eq platform a b ≡ value_eq platform b a
unfolding value_eq
value_eq_symm nil nil = refl
value_eq_symm nil (boolean b) = refl
value_eq_symm nil (number n) = refl
value_eq_symm nil (object t p) = refl
value_eq_symm (boolean a) nil = refl
value_eq_symm (boolean true) (boolean true) = refl
value_eq_symm (boolean true) (boolean false) = refl
value_eq_symm (boolean false) (boolean true) = refl
value_eq_symm (boolean false) (boolean false) = refl
value_eq_symm (boolean a) (number n) = refl
value_eq_symm (boolean a) (object t p) = refl
value_eq_symm (number a) nil = refl
value_eq_symm (number a) (boolean b) = refl
value_eq_symm (number a) (number b) = rw (==_symm a b) refl
value_eq_symm (number a) (object t p) = refl
value_eq_symm (object t p) nil = refl
value_eq_symm (object t p) (boolean b) = refl
value_eq_symm (object t p) (number n) = refl
value_eq_symm (object t p) (object t' p') = ground (arith, ==_symm t t', ==_symm p p')

value_eq_refl : (a : Value ℕ) → value_eq platform a a ≡ true
unfolding value_eq
value_eq_refl nil = refl
value_eq_refl (boolean true) = refl
value_eq_refl (boolean false) = refl
value_eq_refl (number n) = rw (==_refl n) refl
value_eq_refl (object t p) = rw (==_refl t, ==_refl p) refl

pub value_eq_same : (a b : Value ℕ) → value_eq platform a b ≡ true → a ≡ b
unfolding value_eq
value_eq_same nil nil e = refl
value_eq_same nil (boolean b) e = cc
value_eq_same nil (number n) e = cc
value_eq_same nil (object t p) e = cc
value_eq_same (boolean a) nil e = cc
value_eq_same (boolean true) (boolean true) e = refl
value_eq_same (boolean true) (boolean false) e = cc
value_eq_same (boolean false) (boolean true) e = cc
value_eq_same (boolean false) (boolean false) e = refl
value_eq_same (boolean a) (number n) e = cc
value_eq_same (boolean a) (object t p) e = cc
value_eq_same (number a) nil e = cc
value_eq_same (number a) (boolean b) e = cc
value_eq_same (number a) (number b) e = ground arith
value_eq_same (number a) (object t p) e = cc
value_eq_same (object t p) nil e = cc
value_eq_same (object t p) (boolean b) e = cc
value_eq_same (object t p) (number n) e = cc
value_eq_same (object t p) (object t' p') e = ground arith

pub laws : EqualityLaws (value_equality platform)
laws = record {
  key_refl = value_eq_refl;
  key_symm = value_eq_symm;
  key_trans = λ a b c p q.
      let e = value_eq_same a b p ∙ value_eq_same b c q in
      ap (value_eq platform a) (sym e) ∙ value_eq_refl a;
  val_refl = value_eq_refl;
}

abbrev one_hash : Value ℕ → ℕ
one_hash v = 1

hashes : HashLaws (value_equality platform) one_hash
hashes = record { hash-lt = λ k. omega arith; hash_congr = λ a b e. refl }

-- (map-set m nil 5)
abbrev setting : Machine ℕ
setting = record caller { narg = 3; stack = number 5 ∷ nil ∷ object su_map 0 ∷ object 7 2 ∷ [] }

map_set-persistent_example :
    (x' : HashTable (Value ℕ) (Value ℕ)) × Inserted
      (value_equality platform)
      laws
      one_hash
      hashes
      map_create_empty
      nil
      (number 5)
      x'
    × (((x' ≡ map_create_empty)
          × (native_map_set platform setting 3
              ≡ ok (record setting { stack = object su_map 0 ∷ setting.stack }, true)))
        ⊎ ((native_map_set platform setting 3
              ≡ ok (
                record setting {
                  stack = object su_map 1 ∷ setting.stack;
                  heap = record setting.heap { maps = map_create_empty ∷ x' ∷ [] };
                },
                true,
              ))
            × (fetch (map_create_empty ∷ x' ∷ []) 1 ≡ ok x')
            × ((p : ℕ) (old : HashTable (Value ℕ) (Value ℕ))
                → fetch (map_create_empty ∷ []) p ≡ ok old
                → fetch (map_create_empty ∷ x' ∷ []) p ≡ ok old)))
unfolding size map_length hash_value
map_set-persistent_example =
    map_set-persistent platform laws one_hash hashes setting 0 (number 5) nil (object 7 2 ∷ [])
      map_create_empty refl refl (omega arith) refl (record { root = tt; count = refl })
      (omega arith) refl

-- The map that it makes.
abbrev new_map : HashTable (Value ℕ) (Value ℕ)
new_map = record { cnt = 1; root = leaf_node (record { hash = 1; key = nil; val = number 5 }) }

abbrev set_done : Machine ℕ
set_done = record setting {
  stack = object su_map 1 ∷ setting.stack;
  heap = record setting.heap { maps = map_create_empty ∷ new_map ∷ [] };
}

set_runs : native_map_set platform setting 3 ≡ ok (set_done, true)
unfolding native_map_set su_check_arguments su_map_insert hash_value map_insert insert_keeps push
set_runs = refl

-- Setting the value that is there gives the map itself.
abbrev setting_again : Machine ℕ
setting_again = record set_done { stack = number 5 ∷ nil ∷ object su_map 1 ∷ [] }

set_again_runs :
    native_map_set platform setting_again 3
    ≡ ok (record setting_again { stack = object su_map 1 ∷ setting_again.stack }, true)
unfolding native_map_set su_check_arguments su_map_insert hash_value map_insert insert_keeps push
    value_eq
set_again_runs = refl

abbrev getting : Machine ℕ
getting = record set_done { narg = 2; stack = nil ∷ object su_map 1 ∷ [] }

map_set-map_get_example :
    (v : Value ℕ) × (native_map_get platform getting 2
      ≡ ok (record getting { stack = v ∷ getting.stack }, true))
    × (value_eq platform (number 5) v ≡ true)
unfolding size map_length hash_value
map_set-map_get_example =
    map_set-map_get platform laws one_hash hashes setting 0 (number 5) nil (object 7 2 ∷ [])
      map_create_empty refl refl (omega arith) refl (record { root = tt; count = refl })
      (omega arith) refl set_done getting (object su_map 1) nil [] set_runs refl refl refl refl
      (omega arith) refl (value_eq_refl nil)

abbrev asking : Machine ℕ
asking = record caller { narg = 2; stack = number 5 ∷ object su_map 0 ∷ object 7 2 ∷ [] }

-- A number passes as a vector.
su_check_arguments-fixed_example :
    su_check_arguments asking (pos 2) (su_vector ∷ su_vector ∷ []) ≡ ok tt
su_check_arguments-fixed_example = su_check_arguments-fixed asking 2 (su_vector ∷ su_vector ∷ [])
