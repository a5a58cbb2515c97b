-- ===== src/HashMap.antt =====
-- The persistent hash map of src/vm/seq.c: a trie on the 5-bit digits of a hash, whose inner nodes
-- are sparse (`node_idx`) or full (`node_full`). A node is its contents; where the source compares
-- the pointer that a call returns with the node it was called on, the model's call says whether it
-- returned that node.
pub mod Bits
pub mod Update
pub mod Without
pub mod Table
pub mod BitLaws
pub mod Positions
pub mod Digits
pub mod Trie
pub mod Inner
pub mod Arrays
pub mod Create
pub mod Written
pub mod SetChild
pub mod Collisions
pub mod Leaves
pub mod Insert
pub mod Shape
pub mod TableInsert
pub mod Dropped
pub mod Removed
pub mod RemoveLeaf
pub mod RemoveChild
pub mod RemoveIdx
pub mod Remove
pub mod TableRemove
pub mod History
use saurus.Base.{
  ℕ, zero, suc, ◌+◌, ◌-◌, Bool, true, false, ◌&&◌, Option, none, some, List, [], ◌∷◌, ◌++◌, length,
  fetch, store, ◌==◌, if◌then◌else◌, Run, ok, fault, ◌>>=◌, add_int,
}
use saurus.HashMap.Bits.{
  mask, bit_of, bit_or, bit_and, bit_not, bits_eq, all_ones, has_bit, idx_node_index,
}

-- `value_eq` on keys and on values.
pub record Equality {ℓ} (K V : Type ℓ) : Type ℓ where
  pub key_eq : K → K → Bool
  pub val_eq : V → V → Bool

-- `struct node_leaf`
pub record Leaf {ℓ} (K V : Type ℓ) : Type ℓ where
  pub hash : ℕ
  pub key : K
  pub val : V

-- `struct node` with its five classes, and `struct vector_node` for an array of children.
mutual
  pub data MapNode {ℓ} (K V : Type ℓ) : Type ℓ where
    empty_node : MapNode K V
    leaf_node : Leaf K V → MapNode K V
    collision_node : ℕ → List (Leaf K V) → MapNode K V
    idx_node : List Bool → ℕ → ℕ → MapNodes K V → MapNode K V
    full_node : ℕ → ℕ → MapNodes K V → MapNode K V

  pub data MapNodes {ℓ} (K V : Type ℓ) : Type ℓ where
    nil : MapNodes K V
    cons : MapNode K V → MapNodes K V → MapNodes K V

module _ {ℓ} {K V : Type ℓ} where
  -- Arrays of children: a read, and the copies that `memcpy` and an assignment make. An access out of
  -- range is undefined.
  pub fetch_node : MapNodes K V → ℕ → Run (MapNode K V)
  fetch_node nil i = fault
  fetch_node (cons n ns) zero = ok n
  fetch_node (cons n ns) (suc i) = fetch_node ns i

  pub store_node : MapNodes K V → ℕ → MapNode K V → Run (MapNodes K V)
  store_node nil i c = fault
  store_node (cons n ns) zero c = ok (cons c ns)
  store_node (cons n ns) (suc i) c = store_node ns i c >>= λ r. ok (cons n r)

  pub insert_node : MapNodes K V → ℕ → MapNode K V → Run (MapNodes K V)
  insert_node ns zero c = ok (cons c ns)
  insert_node nil (suc i) c = fault
  insert_node (cons n ns) (suc i) c = insert_node ns i c >>= λ r. ok (cons n r)

  pub remove_node : MapNodes K V → ℕ → Run (MapNodes K V)
  remove_node nil i = fault
  remove_node (cons n ns) zero = ok ns
  remove_node (cons n ns) (suc i) = remove_node ns i >>= λ r. ok (cons n r)

  -- `vt->get_hash`
  unfoldable pub get_hash : MapNode K V → ℕ
  get_hash empty_node = 0
  get_hash (leaf_node leaf) = leaf.hash
  get_hash (collision_node hash leaves) = hash
  get_hash (idx_node bitmap shift hash nodes) = hash
  get_hash (full_node shift hash nodes) = hash

  pub create_full_node : MapNodes K V → ℕ → Run (MapNode K V)
  unfolding fetch_node get_hash
  create_full_node nodes shift = do
    first ← fetch_node nodes 0
    ok (full_node shift (get_hash first) nodes)

  pub create_idx_node : List Bool → MapNodes K V → ℕ → Run (MapNode K V)
  unfolding fetch_node get_hash
  create_idx_node bitmap nodes shift = do
    first ← fetch_node nodes 0
    ok (idx_node bitmap shift (get_hash first) nodes)

  pub create_idx_node2 : List Bool → MapNodes K V → ℕ → Run (MapNode K V)
  unfolding create_full_node create_idx_node bits_eq
  create_idx_node2 bitmap nodes shift =
      if bits_eq bitmap all_ones
      then create_full_node nodes shift
      else create_idx_node bitmap nodes shift

module _ {ℓ} {K V : Type ℓ} (eq : Equality K V) where
  -- `leaf_node_find`, as a test.
  abbrev pub leaf_matches : Leaf K V → ℕ → K → Bool
  leaf_matches leaf hash key = hash == leaf.hash && eq.key_eq key leaf.key

  abbrev pub leaf_node_find : Leaf K V → ℕ → K → Option (Leaf K V)
  leaf_node_find leaf hash key = if leaf_matches leaf hash key then some leaf else none

  -- `collision_node_find_index`; `none` is -1.
  pub collision_node_find_index : List (Leaf K V) → ℕ → K → Option ℕ
  collision_node_find_index [] hash key = none
  collision_node_find_index (leaf ∷ leaves) hash key =
      let rest = collision_node_find_index leaves hash key in
      if leaf_matches leaf hash key
      then some 0
      else elim rest [ none ↦ none | some i ↦ some (suc i) ]

  pub collision_node_find : List (Leaf K V) → ℕ → K → Run (Option (Leaf K V))
  collision_node_find leaves hash key = elim (collision_node_find_index leaves hash key) [
    | some i ↦ fetch leaves i >>= λ leaf. ok (some leaf)
    | none ↦ ok none
  ]

  -- `vt->find`; `find_at nodes i` is the call on `nodes->data[i]`.
  mutual
    unfolding collision_node_find_index collision_node_find has_bit idx_node_index mask

    pub find : MapNode K V → ℕ → K → Run (Option (Leaf K V))
    find empty_node hash key = ok none
    find (leaf_node leaf) hash key = ok (leaf_node_find leaf hash key)
    find (collision_node _ leaves) hash key = collision_node_find leaves hash key
    find (idx_node bitmap shift _ nodes) hash key = mask hash shift >>= λ m.
        if has_bit bitmap m then find_at nodes (idx_node_index bitmap m) hash key else ok none
    find (full_node shift _ nodes) hash key = mask hash shift >>= λ m. find_at nodes m hash key

    pub find_at : MapNodes K V → ℕ → ℕ → K → Run (Option (Leaf K V))
    find_at nil i hash key = fault
    find_at (cons n nodes) zero hash key = find n hash key
    find_at (cons n nodes) (suc i) hash key = find_at nodes i hash key
