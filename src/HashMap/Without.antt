-- ===== src/HashMap/Without.antt =====
-- The `without` functions of the five node classes of src/vm/seq.c.
use saurus.Base.{
  ℕ, zero, suc, Bool, none, some, List, ◌++◌, length, take, drop, fetch, ◌==◌, if◌then◌else◌, Run,
  ok, fault, ◌>>=◌,
}
use saurus.HashMap.Bits.{mask, bit_of, bit_and, bit_not, bits_eq, has_bit, idx_node_index}
use saurus.HashMap.{
  Equality, Leaf, MapNode, empty_node, leaf_node, collision_node, idx_node, full_node, MapNodes,
  nil, cons, store_node, remove_node, create_full_node, create_idx_node, leaf_matches,
  collision_node_find_index,
}

-- What `without` returns: the node it was called on, `NULL`, or another node.
pub data Removal {ℓ} (K V : Type ℓ) : Type ℓ where
  same : Removal K V
  null : Removal K V
  other : MapNode K V → Removal K V

module _ {ℓ} {K V : Type ℓ} where
  -- `full_node_without` and `idx_node_without`, given what `without` on child `idx` returned.
  unfoldable pub full_without_child : MapNodes K V → (shift m : ℕ) → Removal K V → Run (Removal K V)
  unfolding remove_node store_node create_idx_node create_full_node bit_not
  full_without_child nodes shift m same = ok same
  full_without_child nodes shift m null = do
    new_nodes ← remove_node nodes m
    n ← create_idx_node (bit_not (bit_of m)) new_nodes shift
    ok (other n)
  full_without_child nodes shift m (other c) = do
    new_nodes ← store_node nodes m c
    n ← create_full_node new_nodes shift
    ok (other n)

  -- The case of `idx_node_without` in which a child was emptied.
  unfoldable pub idx_drop_child : List Bool → MapNodes K V → (shift m idx : ℕ) → Run (Removal K V)
  unfolding remove_node create_idx_node bit_and bit_not
  idx_drop_child bitmap nodes shift m idx = do
    new_nodes ← remove_node nodes idx
    n ← create_idx_node (bit_and bitmap (bit_not (bit_of m))) new_nodes shift
    ok (other n)

  unfoldable pub idx_without_child :
      List Bool → MapNodes K V → (shift m idx : ℕ) → Removal K V → Run (Removal K V)
  unfolding store_node create_idx_node bits_eq idx_drop_child
  idx_without_child bitmap nodes shift m idx same = ok same
  idx_without_child bitmap nodes shift m idx null =
      if bits_eq bitmap (bit_of m) then ok null else idx_drop_child bitmap nodes shift m idx
  idx_without_child bitmap nodes shift m idx (other c) = do
    new_nodes ← store_node nodes idx c
    n ← create_idx_node bitmap new_nodes shift
    ok (other n)

  -- The array of leaves without number `i`, by two `memcpy`.
  abbrev pub remove_leaf : List (Leaf K V) → ℕ → List (Leaf K V)
  remove_leaf leaves i = take i leaves ++ drop (suc i) leaves

  -- `collision_node_without` once the leaf is found.
  unfoldable pub collision_drop_leaf : List (Leaf K V) → (hash i : ℕ) → Run (Removal K V)
  collision_drop_leaf leaves hash i =
      if length leaves == 2
      then (fetch leaves (if i == 0 then 1 else 0) >>= λ leaf. ok (other (leaf_node leaf)))
      else ok (other (collision_node hash (remove_leaf leaves i)))

module _ {ℓ} {K V : Type ℓ} (eq : Equality K V) where
  unfoldable pub collision_node_without : List (Leaf K V) → ℕ → K → Run (Removal K V)
  collision_node_without leaves hash key = elim (collision_node_find_index eq leaves hash key) [
    | none ↦ ok same
    | some i ↦ collision_drop_leaf leaves hash i
  ]

  -- `vt->without`; `without_at nodes i` is the call on `nodes->data[i]`.
  unfoldable mutual
    unfolding collision_node_find_index collision_drop_leaf collision_node_without
        full_without_child idx_without_child has_bit idx_node_index mask

    pub without : MapNode K V → ℕ → K → Run (Removal K V)
    without empty_node hash key = ok same
    without (leaf_node leaf) hash key = ok (if leaf_matches eq leaf hash key then null else same)
    without (collision_node _ leaves) hash key = collision_node_without leaves hash key
    without (idx_node bitmap shift _ nodes) hash key = mask hash shift >>= λ m.
        let child = without_at nodes (idx_node_index bitmap m) hash key in
        if has_bit bitmap m
        then (child >>= λ r. idx_without_child bitmap nodes shift m (idx_node_index bitmap m) r)
        else ok same
    without (full_node shift _ nodes) hash key = mask hash shift >>= λ m.
        without_at nodes m hash key >>= λ r. full_without_child nodes shift m r

    pub without_at : MapNodes K V → ℕ → ℕ → K → Run (Removal K V)
    without_at nil i hash key = fault
    without_at (cons n nodes) zero hash key = without n hash key
    without_at (cons n nodes) (suc i) hash key = without_at nodes i hash key
