-- ===== src/Tests/Globals.antt =====
-- A global variable is set and found, on a heap with one string.
use saurus.Base.{
  ok-injective, ℕ, zero, suc, ◌≡◌, ◌≢◌, refl, ap, sym, ◌<◌, ◌^◌, true, [], ◌∷◌, ok, fetch, arith,
}
use saurus.HashMap.Table.{map_create_empty, map_get, map_insert, map_length}
use saurus.HashMap.{leaf_node}
use saurus.HashMap.Trie.{size}
use saurus.HashMap.Shape.{HashLaws}
use saurus.Tests.Machine.{heap, platform}
use saurus.Tests.Natives.{value_eq_same, laws}
use saurus.Vm.{Value, nil, boolean, number, object}
use saurus.Vm.Closures.{global_name, find_global, get_global, set_global}
use saurus.Vm.Globals.{set_global-get_global}
use saurus.Vm.Hash.{value_eq, value_equality}
use saurus.Vm.Starts.{global_hash, murmur-lt}
use saurus.Vm.State.{Heap, StringObject}
use saurus.Vm.Strings.{string_from_db}

abbrev one_name : Heap ℕ
one_name = record heap { string_objects = record { hash = 5; str = 120 ∷ 0 ∷ [] } ∷ [] }

-- "_G" is the second string.
abbrev two_names : Heap ℕ
two_names = record one_name {
  string_objects =
      record { hash = 5; str = 120 ∷ 0 ∷ [] }
      ∷ record { hash = global_hash platform; str = global_name platform }
      ∷ [];
  strings = record {
    cnt = 1;
    root = leaf_node (record { hash = global_hash platform; key = global_hash platform; val = 1 });
  };
}

abbrev name_hash : Value ℕ → ℕ
name_hash (object t zero) = 5
name_hash v = global_hash platform

name_hashes : HashLaws (value_equality platform) name_hash
name_hashes = record { hash-lt = bound; hash_congr = λ a b e. ap name_hash (value_eq_same a b e) }
  where
    bound : (v : Value ℕ) → name_hash v < 2 ^ 32
    bound nil = murmur-lt platform
    bound (boolean b) = murmur-lt platform
    bound (number n) = murmur-lt platform
    bound (object t zero) = omega arith
    bound (object t (suc p)) = murmur-lt platform

names :
    (q : ℕ) (r : StringObject)
    → fetch two_names.string_objects q ≡ ok r
    → r.hash ≡ name_hash (object 3 q)
names zero r e = ap (λ (s : StringObject). s.hash) (sym (ok-injective e))
names (suc zero) r e = ap (λ (s : StringObject). s.hash) (sym (ok-injective e))
names (suc (suc q)) r e = absurd (cc)

interns : string_from_db one_name (global_hash platform) (global_name platform) ≡ ok (1, two_names)
unfolding string_from_db map_get map_insert
interns = refl

set_global-get_global_example :
    (heap' : Heap ℕ) × (set_global platform one_name (object 3 0) (number 8) ≡ ok heap')
    × ((v : Value ℕ) × (get_global platform heap' (object 3 0) ≡ ok v)
        × (value_eq platform (number 8) v ≡ true))
    × ((q : ℕ) (r : StringObject)
        → fetch one_name.string_objects q ≡ ok r
        → q ≢ 0
        → q ≢ 1
        → find_global platform heap' (object 3 q) ≡ find_global platform one_name (object 3 q))
unfolding map_get map_length size
set_global-get_global_example =
    set_global-get_global platform laws name_hash name_hashes one_name two_names 0 1 _ _
      map_create_empty (number 8) refl (record { root = tt; count = refl }) (omega arith) refl
      interns refl names (λ e. omega (arith, e)) refl
