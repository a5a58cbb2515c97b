-- ===== src/Tests.antt =====
-- Concrete vectors and maps of src/vm/seq.c, and the theorems at them.
mod Gc
mod Reader
mod Globals
mod Host
mod Image
mod Lists
mod Machine
mod Natives
mod Seq
mod TailCalls
mod Variadic
mod Vectors
mod Vm
use saurus.Base.{
  ℕ, zero, suc, ◌+◌, ◌*◌, ◌/◌, ◌%◌, ◌<◌, ◌≡◌, ◌⊎◌, inr, refl, ap, ◌∙◌, Option, List, [], ◌∷◌, ◌++◌,
  length, set, ◌==◌, ==_iff, ==_refl, ==_symm, ok, raise, index_out_of_bounds, pop_empty_vector,
  pos, arith,
}
use saurus.Vector.{Vector, vector_push, vector_pop, vector_set, vector_index}
use saurus.Vector.Shape.{flat, Represents}
use saurus.Vector.Index.{element, vector_index-element}
use saurus.Vector.Push.{vector_push-Represents}
use saurus.Vector.Bounds.{vector_set-element, vector_pop-last}
use saurus.HashMap.{Equality, Leaf, collision_node}
use saurus.HashMap.Table.{HashTable, map_get, map_insert, map_remove, map_length}
use saurus.HashMap.Trie.{size}
use saurus.HashMap.Written.{EqualityLaws}
use saurus.HashMap.Shape.{HashLaws, IsTable, map_get-total}
use saurus.HashMap.TableInsert.{Inserted, map_insert-Inserted}
use saurus.HashMap.TableRemove.{Deleted, map_remove-Deleted}
use saurus.HashMap.History.{Call, insert, remove, run, Reflects, run-Reflects}

-- `n`, `n + 1`, …: `k` numbers.
abbrev numbers : ℕ → ℕ → List ℕ
numbers n zero = []
numbers n (suc k) = n ∷ numbers (suc n) k

-- 33 values: a full node, and one value in the tail.
abbrev one_node : Vector ℕ
one_node = record { cnt = 33; depth = 0; root = numbers 0 32 ∷ []; tail = 32 ∷ [] }

one_node-Represents : Represents one_node (numbers 0 33)
unfolding flat
one_node-Represents = record {
  count = refl;
  contents = refl;
  tail_fits = omega arith;
  shape = inr (
    record {
      init = [];
      last = numbers 0 32;
      parts = refl;
      fits = omega arith;
      inner = tt;
      outer = refl;
    },
    omega arith,
  );
}

-- 64 values: a full node and a full tail.
abbrev full_tail : Vector ℕ
full_tail = record { cnt = 64; depth = 0; root = numbers 0 32 ∷ []; tail = numbers 32 32 }

full_tail-Represents : Represents full_tail (numbers 0 64)
unfolding flat
full_tail-Represents = record {
  count = refl;
  contents = refl;
  tail_fits = omega arith;
  shape = inr (
    record {
      init = [];
      last = numbers 0 32;
      parts = refl;
      fits = omega arith;
      inner = tt;
      outer = refl;
    },
    omega arith,
  );
}

vector_push_example :
    (v' : Vector ℕ) × (vector_push full_tail 64 ≡ ok v') × Represents v' (numbers 0 64 ++ 64 ∷ [])
vector_push_example = vector_push-Represents 64 full_tail-Represents (omega arith)

vector_pop_example :
    ((numbers 0 33 ≡ []) × (vector_pop one_node ≡ raise pop_empty_vector))
    ⊎ ((ys : List ℕ) × (y : ℕ) × (numbers 0 33 ≡ ys ++ y ∷ [])
        × (v' : Vector ℕ) × (vector_pop one_node ≡ ok v')
        × Represents v' ys)
vector_pop_example = vector_pop-last one_node-Represents

vector_index_example : vector_index one_node (pos 20) ≡ element (numbers 0 33) (pos 20)
vector_index_example = vector_index-element one_node-Represents (pos 20)

vector_set_example :
    ((element (numbers 0 33) (pos 20) ≡ raise index_out_of_bounds)
      × (vector_set one_node (pos 20) 7 ≡ raise index_out_of_bounds))
    ⊎ ((j : ℕ) × (pos 20 ≡ pos j)
        × (j < length (numbers 0 33))
        × (v' : Vector ℕ) × (vector_set one_node (pos 20) 7 ≡ ok v')
        × Represents v' (set (numbers 0 33) j 7))
vector_set_example = vector_set-element 7 one_node-Represents (pos 20)

-- Maps on numbers, with a hash under which 5 and 69 collide, and 21 shares the lowest digit with them.
abbrev equality : Equality ℕ ℕ
equality = record { key_eq = λ a b. a == b; val_eq = λ a b. a == b }

abbrev number_hash : ℕ → ℕ
number_hash k = k % 64 / 16 * 32 + k % 16

equality_laws : EqualityLaws equality
equality_laws = record {
  key_refl = ==_refl;
  key_symm = ==_symm;
  key_trans = λ a b c p q. (==_iff a c).1 ((==_iff a b).0 p ∙ (==_iff b c).0 q);
  val_refl = ==_refl;
}

hash_laws : HashLaws equality number_hash
hash_laws = record {
  hash-lt = λ k. omega arith;
  hash_congr = λ a b e. ap number_hash ((==_iff a b).0 e);
}

abbrev entry : ℕ → ℕ → Leaf ℕ ℕ
entry key val = record { hash = number_hash key; key = key; val = val }

-- Two keys with one hash.
abbrev two_keys : HashTable ℕ ℕ
two_keys = record { cnt = 2; root = collision_node 5 (entry 5 100 ∷ entry 69 200 ∷ []) }

two_keys-IsTable : IsTable equality two_keys
unfolding size
two_keys-IsTable = record {
  root = (omega arith, omega arith, (refl, (refl, tt)), ((refl, tt), (tt, tt)));
  count = refl;
}

map_get_example : (o : Option ℕ) × (map_get equality two_keys 69 5 ≡ ok o)
map_get_example = map_get-total equality two_keys 69 5 two_keys-IsTable

map_insert_example :
    (m' : HashTable ℕ ℕ) × (map_insert equality two_keys 21 (number_hash 21) 300 ≡ ok m')
    × Inserted equality equality_laws number_hash hash_laws two_keys 21 300 m'
unfolding map_length
map_insert_example =
    map_insert-Inserted equality equality_laws number_hash hash_laws two_keys 21 300
      two_keys-IsTable (omega arith)

map_remove_example :
    (m' : HashTable ℕ ℕ) × (map_remove equality two_keys 5 (number_hash 5) ≡ ok m')
    × Deleted equality equality_laws number_hash hash_laws two_keys 5 m'
map_remove_example =
    map_remove-Deleted equality equality_laws number_hash hash_laws two_keys 5 two_keys-IsTable

abbrev calls : List (Call ℕ ℕ)
calls = remove 5 ∷ insert 69 200 ∷ insert 21 300 ∷ insert 5 100 ∷ []

run_example :
    (m : HashTable ℕ ℕ) × (run equality number_hash calls ≡ ok m)
    × Reflects equality number_hash calls m
run_example = run-Reflects equality number_hash equality_laws hash_laws calls (omega arith)
