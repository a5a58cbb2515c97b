-- ===== src/HashMap/Shape.antt =====
-- Well-formed hash maps of src/vm/seq.c, and what `value_hash` has to do for them.
use saurus.Base.{
  ℕ, suc, ◌*◌, ◌^◌, ◌<◌, ◌≡◌, refl, ap, ◌∙◌, true, Option, none, some, List, [], ◌∷◌, ◌==◌,
  Bool-cases, inl, inr, ok, ◌>>=◌,
}
use saurus.HashMap.Bits.{all_ones, digit}
use saurus.HashMap.Positions.{positions}
use saurus.HashMap.Trie.{IsTrie, IsTries, size, seek}
use saurus.HashMap.Inner.{find-idx, find-full}
use saurus.HashMap.Collisions.{first_match, collision_node_find-first_match}
use saurus.HashMap.Table.{HashTable, map_get}
use saurus.HashMap.{
  Equality, Leaf, MapNode, MapNodes, nil, cons, empty_node, leaf_node, collision_node, idx_node,
  full_node, find, leaf_node_find,
}

-- `value_hash`: 32 bits, the same for equal keys.
pub record HashLaws {ℓ} {K V : Type ℓ} (eq : Equality K V) (value_hash : K → ℕ) : Type ℓ where
  pub hash-lt : (k : K) → value_hash k < 2 ^ 32
  pub hash_congr : (a b : K) → eq.key_eq a b ≡ true → value_hash a ≡ value_hash b

module _ {ℓ} {K V : Type ℓ} (eq : Equality K V) where
  -- Only the root of an empty map is the empty node.
  abbrev pub IsRoot : MapNode K V → Type 0
  IsRoot empty_node = Unit
  IsRoot (leaf_node leaf) = IsTrie eq 0 (leaf_node leaf)
  IsRoot (collision_node hash leaves) = IsTrie eq 0 (collision_node hash leaves)
  IsRoot (idx_node bitmap shift hash nodes) = IsTrie eq 0 (idx_node bitmap shift hash nodes)
  IsRoot (full_node shift hash nodes) = IsTrie eq 0 (full_node shift hash nodes)

  -- `cnt` counts the leaves.
  pub record IsTable (m : HashTable K V) : Type 0 where
    pub root : IsRoot m.root
    pub count : m.cnt ≡ size m.root

  pub IsTrie-IsRoot : (n : MapNode K V) → IsTrie eq 0 n → IsRoot n
  IsTrie-IsRoot empty_node t = absurd t
  IsTrie-IsRoot (leaf_node leaf) t = t
  IsTrie-IsRoot (collision_node hash leaves) t = t
  IsTrie-IsRoot (idx_node bitmap shift hash nodes) t = t
  IsTrie-IsRoot (full_node shift hash nodes) t = t

  -- A search in a well-formed trie ends.
  mutual
    unfolding find seek

    find-total :
        (l : ℕ) (n : MapNode K V) (h : ℕ) (q : K)
        → IsTrie eq l n
        → (o : Option (Leaf K V)) × (find eq n h q ≡ ok o)
    find-total l empty_node h q t = absurd t
    find-total l (leaf_node leaf) h q t = (leaf_node_find eq leaf h q, refl)
    find-total l (collision_node hash leaves) h q t =
        (first_match eq leaves h q, collision_node_find-first_match eq leaves h q)
    find-total l (idx_node bitmap shift hash ns) h q t =
        let (o, e) = seek-total l hash (positions 0 bitmap) ns (digit h (5 * l)) h q t.5 in
        (o, find-idx eq l bitmap shift hash ns t h q ∙ e)
    find-total l (full_node shift hash ns) h q t =
        let (o, e) = seek-total l hash (positions 0 all_ones) ns (digit h (5 * l)) h q t.3 in
        (o, find-full eq l shift hash ns t h q ∙ e)

    seek-total :
        (l r : ℕ) (ps : List ℕ) (ns : MapNodes K V) (m h : ℕ) (q : K)
        → IsTries eq l r ps ns
        → (o : Option (Leaf K V)) × (seek eq ps ns m h q ≡ ok o)
    seek-total l r [] ns m h q t = (none, refl)
    seek-total l r (p ∷ ps) nil m h q t = (none, refl)
    seek-total l r (p ∷ ps) (cons n ns) m h q t =
        let (o, e) = find-total (suc l) n h q t.2 in
        let (o', e') = seek-total l r ps ns m h q t.3 in
        elim (Bool-cases (m == p)) [ inl k ↦ (o, rw (k, e)) | inr k ↦ (o', rw (k, e')) ]

  pub root-total :
      (n : MapNode K V) (h : ℕ) (q : K)
      → IsRoot n
      → (o : Option (Leaf K V)) × (find eq n h q ≡ ok o)
  unfolding find
  root-total empty_node h q t = (none, refl)
  root-total (leaf_node leaf) h q t = find-total 0 (leaf_node leaf) h q t
  root-total (collision_node hash leaves) h q t = find-total 0 (collision_node hash leaves) h q t
  root-total (idx_node bitmap shift hash ns) h q t =
      find-total 0 (idx_node bitmap shift hash ns) h q t
  root-total (full_node shift hash ns) h q t = find-total 0 (full_node shift hash ns) h q t

  -- On a well-formed map `map_get` ends, with a value or with nothing, at every key and hash.
  pub map_get-total :
      (m : HashTable K V) (q : K) (h : ℕ) → IsTable m → (o : Option V) × (map_get eq m q h ≡ ok o)
  unfolding map_get
  map_get-total m q h t =
      let (o, e) = root-total m.root h q t.root in
      (elim o [ none ↦ none | some leaf ↦ some leaf.val ], rw e)

  pub map_get-find :
      (m m' : HashTable K V) (q : K) (h : ℕ)
      → find eq m'.root h q ≡ find eq m.root h q
      → map_get eq m' q h ≡ map_get eq m q h
  unfolding map_get
  map_get-find m m' q h e =
      ap (λ x. x >>= λ r. ok (elim r [ none ↦ none | some leaf ↦ some leaf.val ])) e

  pub map_get-some :
      (m : HashTable K V) (q : K) (h : ℕ) (leaf : Leaf K V)
      → find eq m.root h q ≡ ok (some leaf)
      → map_get eq m q h ≡ ok (some leaf.val)
  unfolding map_get
  map_get-some m q h leaf e = rw e

  pub map_get-none :
      (m : HashTable K V) (q : K) (h : ℕ)
      → find eq m.root h q ≡ ok none
      → map_get eq m q h ≡ ok none
  unfolding map_get
  map_get-none m q h e = rw e
