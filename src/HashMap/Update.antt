-- ===== src/HashMap/Update.antt =====
-- The `set` functions of the five node classes of src/vm/seq.c.
use saurus.Base.{
  ℕ, zero, suc, ◌+◌, Bool, true, false, Option, none, some, List, [], ◌∷◌, ◌++◌, store, ◌==◌,
  if◌then◌else◌, Run, ok, fault, ◌>>=◌,
}
use saurus.HashMap.Bits.{mask, bit_of, bit_or, has_bit, idx_node_index}
use saurus.HashMap.{
  Equality, Leaf, MapNode, empty_node, leaf_node, collision_node, idx_node, full_node, MapNodes,
  nil, cons, fetch_node, store_node, insert_node, get_hash, create_full_node, create_idx_node,
  create_idx_node2, collision_node_find_index,
}

-- What `set` returns: the new node, `none` for the node that it was called on, and whether it set
-- `*added_leaf`.
pub record Update {ℓ} (K V : Type ℓ) : Type ℓ where
  pub node : Option (MapNode K V)
  pub added : Bool

module _ {ℓ} {K V : Type ℓ} where
  abbrev pub kept : Bool → Update K V
  kept added = record { node = none; added = added }

  abbrev pub changed : MapNode K V → Bool → Update K V
  changed n added = record { node = some n; added = added }

  abbrev pub create_leaf_node : ℕ → K → V → Leaf K V
  create_leaf_node hash key val = record { hash = hash; key = key; val = val }

  -- `full_node_set`; `set_child` is the call `vt->set` on a child at `shift + 5`.
  unfoldable pub full_node_set :
      MapNodes K V → (shift hash : ℕ) → (MapNode K V → Run (Update K V)) → Run (Update K V)
  unfolding mask fetch_node store_node create_full_node
  full_node_set nodes shift hash set_child = do
    idx ← mask hash shift
    child ← fetch_node nodes idx
    u ← set_child child
    elim u.node [
      | none ↦ ok (kept u.added)
      | some c ↦ do
        new_nodes ← store_node nodes idx c
        n ← create_full_node new_nodes shift
        ok (changed n u.added)
    ]

  -- `idx_node_set`, with the two branches on `bitmap & bit`.
  unfoldable pub idx_set_child :
      List Bool
      → MapNodes K V
      → (shift idx : ℕ) → (MapNode K V → Run (Update K V))
      → Run (Update K V)
  unfolding fetch_node store_node create_idx_node
  idx_set_child bitmap nodes shift idx set_child = do
    child ← fetch_node nodes idx
    u ← set_child child
    elim u.node [
      | none ↦ ok (kept u.added)
      | some c ↦ do
        new_nodes ← store_node nodes idx c
        n ← create_idx_node bitmap new_nodes shift
        ok (changed n u.added)
    ]

  unfoldable pub idx_add_leaf :
      List Bool → MapNodes K V → (shift m idx : ℕ) → Leaf K V → Run (Update K V)
  unfolding insert_node create_idx_node2 bit_or
  idx_add_leaf bitmap nodes shift m idx leaf = do
    new_nodes ← insert_node nodes idx (leaf_node leaf)
    n ← create_idx_node2 (bit_or bitmap (bit_of m)) new_nodes shift
    ok (changed n true)

  unfoldable pub idx_node_set :
      List Bool
      → MapNodes K V
      → (shift : ℕ) → Leaf K V
      → (MapNode K V → Run (Update K V))
      → Run (Update K V)
  unfolding mask has_bit idx_node_index
  idx_node_set bitmap nodes shift leaf set_child = mask leaf.hash shift >>= λ m.
      if has_bit bitmap m
      then idx_set_child bitmap nodes shift (idx_node_index bitmap m) set_child
      else idx_add_leaf bitmap nodes shift m (idx_node_index bitmap m) leaf

  -- A node that `set` was called on was made just before, so returning it is a change.
  abbrev pub or_fresh : MapNode K V → Update K V → Update K V
  or_fresh n u = elim u.node [ none ↦ changed n u.added | some c ↦ changed c u.added ]

  -- `create_idx_node3`: an index node over `branch` alone, and `set` on it.
  unfoldable pub create_idx_node3 :
      (shift : ℕ) → MapNode K V → Leaf K V → (MapNode K V → Run (Update K V)) → Run (Update K V)
  unfolding mask create_idx_node get_hash
  create_idx_node3 shift branch leaf set_child = do
    m ← mask (get_hash branch) shift
    n ← create_idx_node (bit_of m) (cons branch nil) shift
    u ← idx_node_set (bit_of m) (cons branch nil) shift leaf set_child
    ok (or_fresh n u)

module _ {ℓ} {K V : Type ℓ} (eq : Equality K V) where
  -- `leaf_node_set` on a leaf with the same hash.
  unfoldable pub leaf_node_set : Leaf K V → Leaf K V → Update K V
  leaf_node_set old leaf =
      if eq.key_eq leaf.key old.key
      then (if eq.val_eq leaf.val old.val then kept false else changed (leaf_node leaf) false)
      else changed (collision_node leaf.hash (old ∷ leaf ∷ [])) true

  -- `collision_node_set` on leaves with the same hash. Its test for an unchanged value compares the
  -- slot, a value of type MAP_LEAF, with `val`, which never has that type, so the test always fails.
  unfoldable pub collision_node_set : List (Leaf K V) → Leaf K V → Run (Update K V)
  collision_node_set leaves leaf = elim (collision_node_find_index eq leaves leaf.hash leaf.key) [
    | some i ↦ store leaves i leaf >>= λ new_leaves.
        ok (changed (collision_node leaf.hash new_leaves) false)
    | none ↦ ok (changed (collision_node leaf.hash (leaves ++ leaf ∷ [])) true)
  ]

  -- `vt->set`. Each level of the trie takes one unit of fuel. At the level where it is used up, the
  -- shift is 40, and `MASK` has been undefined since 32.
  unfoldable pub node_set : ℕ → MapNode K V → (shift : ℕ) → Leaf K V → Run (Update K V)
  unfolding full_node_set idx_set_child idx_add_leaf idx_node_set create_idx_node3 leaf_node_set
      collision_node_find_index collision_node_set
  node_set zero n shift leaf = fault
  node_set (suc f) empty_node shift leaf = ok (changed (leaf_node leaf) true)
  node_set (suc f) (leaf_node old) shift leaf =
      let deeper =
        create_idx_node3 shift (leaf_node old) leaf (λ c. node_set f c (shift + 5) leaf) in
      if leaf.hash == old.hash then ok (leaf_node_set old leaf) else deeper
  node_set (suc f) (collision_node hash leaves) shift leaf =
      let deeper =
        create_idx_node3 shift (collision_node hash leaves) leaf
          (λ c. node_set f c (shift + 5) leaf) in
      if leaf.hash == hash then collision_node_set leaves leaf else deeper
  node_set (suc f) (idx_node bitmap _ _ nodes) shift leaf =
      idx_node_set bitmap nodes shift leaf (λ c. node_set f c (shift + 5) leaf)
  node_set (suc f) (full_node _ _ nodes) shift leaf =
      full_node_set nodes shift leaf.hash (λ c. node_set f c (shift + 5) leaf)
