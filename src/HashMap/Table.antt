-- ===== src/HashMap/Table.antt =====
-- `struct map` and the map functions of src/vm/seq.c.
use saurus.Base.{
  ℕ, ◌-◌, Bool, true, false, Option, none, some, ◌≡◌, refl, ap, ◌⊎◌, inl, inr, bind-ok,
  if◌then◌else◌, Run, ok, ◌>>=◌, add_int,
}
use saurus.HashMap.{Equality, MapNode, empty_node, find}
use saurus.HashMap.Update.{Update, create_leaf_node, node_set}
use saurus.HashMap.Without.{Removal, same, null, other, without}

pub record HashTable {ℓ} (K V : Type ℓ) : Type ℓ where
  pub cnt : ℕ
  pub root : MapNode K V

-- `map_create_empty`
abbrev pub map_create_empty {ℓ} : {K V : Type ℓ} → HashTable K V
map_create_empty = record { cnt = 0; root = empty_node }

-- A trie on 32-bit hashes has levels 0 to 7.
abbrev pub levels : ℕ
levels = 8

module _ {ℓ} {K V : Type ℓ} where
  unfoldable pub map_length : HashTable K V → ℕ
  map_length m = m.cnt

  -- What `map_insert` makes of the new root. `none` is the old root.
  unfoldable pub insert_result : HashTable K V → Update K V → Run (HashTable K V)
  insert_result m u = elim u.node [
    | none ↦ ok m
    | some root ↦ (if u.added then add_int m.cnt 1 else ok m.cnt) >>= λ cnt.
        ok (record { cnt = cnt; root = root })
  ]

  -- What `map_remove` makes of the new root.
  unfoldable pub remove_result : HashTable K V → Removal K V → HashTable K V
  remove_result m same = m
  remove_result m null = map_create_empty
  remove_result m (other root) = record { cnt = m.cnt - 1; root = root }

module _ {ℓ} {K V : Type ℓ} (eq : Equality K V) where
  -- `none` is the value of type SU_INV.
  unfoldable pub map_get : HashTable K V → K → ℕ → Run (Option V)
  unfolding find
  map_get m key hash =
      find eq m.root hash key >>= λ r. ok (elim r [ none ↦ none | some leaf ↦ some leaf.val ])

  unfoldable pub map_insert : HashTable K V → K → ℕ → V → Run (HashTable K V)
  unfolding node_set insert_result
  map_insert m key hash val =
      node_set eq levels m.root 0 (create_leaf_node hash key val) >>= insert_result m

  unfoldable pub map_remove : HashTable K V → K → ℕ → Run (HashTable K V)
  unfolding without remove_result
  map_remove m key hash = without eq m.root hash key >>= λ r. ok (remove_result m r)

  -- Whether `map_insert` and `map_remove` return the map that they are given, and not a new one.
  unfoldable pub insert_keeps : HashTable K V → K → ℕ → V → Run Bool
  unfolding node_set
  insert_keeps m key hash val = node_set eq levels m.root 0 (create_leaf_node hash key val) >>= λ u.
      ok (elim u.node [ none ↦ true | some root ↦ false ])

  unfoldable pub remove_keeps : HashTable K V → K → ℕ → Run Bool
  unfolding without
  remove_keeps m key hash = without eq m.root hash key >>= λ r.
      ok (elim r [ same ↦ true | null ↦ false | other root ↦ false ])

  kept_node :
      (m m' : HashTable K V) (node : Option (MapNode K V)) (added : Bool)
      → insert_result m (record { node = node; added = added }) ≡ ok m'
      → ((elim node [ none ↦ true | some root ↦ false ]) ≡ true × (m' ≡ m))
        ⊎ ((elim node [ none ↦ true | some root ↦ false ]) ≡ false)
  unfolding insert_result
  kept_node m m' none added e = inl (refl, cc)
  kept_node m m' (some root) added e = inr refl

  -- If it does, it is the same map.
  pub insert_keeps-map_insert :
      (m m' : HashTable K V) (key : K) (hash : ℕ) (val : V)
      → map_insert m key hash val ≡ ok m'
      → ((insert_keeps m key hash val ≡ ok true) × (m' ≡ m))
        ⊎ (insert_keeps m key hash val ≡ ok false)
  unfolding map_insert insert_keeps
  insert_keeps-map_insert m m' key hash val made =
      let (u, run, e) =
        bind-ok (node_set eq levels m.root 0 (create_leaf_node hash key val)) (insert_result m) m'
          made in
      elim (kept_node m m' u.node u.added e) [
        | inl (k, same_map) ↦ inl (rw run (ap ok k), same_map)
        | inr k ↦ inr (rw run (ap ok k))
      ]
