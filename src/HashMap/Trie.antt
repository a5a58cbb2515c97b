-- ===== src/HashMap/Trie.antt =====
-- The shape of a hash map's trie in src/vm/seq.c: at level `l` (shift 5 l) all hashes below a node
-- share their `l` low digits, and the children of an inner node stand in the order of their digits.
use saurus.Base.{
  ℕ, zero, suc, ◌+◌, ◌*◌, ◌^◌, ◌≤◌, ◌<◌, ◌≡◌, ◌≢◌, refl, false, Option, none, List, [], ◌∷◌, length,
  All, ◌==◌, ==_refl, ==-ne, if◌then◌else◌, Run, ok, fetch,
}
use saurus.HashMap.Bits.{all_ones, digit}
use saurus.HashMap.Digits.{Agree}
use saurus.HashMap.Positions.{positions, Distinct}
use saurus.HashMap.{
  Equality, Leaf, MapNode, empty_node, leaf_node, collision_node, idx_node, full_node, MapNodes,
  nil, cons, get_hash, find, find_at,
}

module _ {ℓ} {K V : Type ℓ} (eq : Equality K V) where
  -- No key stands twice among colliding leaves.
  abbrev pub KeysDistinct : List (Leaf K V) → Type 0
  KeysDistinct [] = Unit
  KeysDistinct (leaf ∷ leaves) =
      All (λ other. eq.key_eq leaf.key other.key ≡ false) leaves × KeysDistinct leaves

  abbrev pub IsCollision : ℕ → List (Leaf K V) → Type 0
  IsCollision hash leaves =
      (hash < 2 ^ 32)
      × (2 ≤ length leaves)
      × All (λ leaf. leaf.hash ≡ hash) leaves
      × KeysDistinct leaves

  -- `IsTries l r ps ns` is about the children `ns` at the digits `ps` of a node at level `l` whose
  -- hashes agree with `r`.
  abbrev mutual
    pub IsTrie : ℕ → MapNode K V → Type 0
    IsTrie l empty_node = ⊥
    IsTrie l (leaf_node leaf) = leaf.hash < 2 ^ 32
    IsTrie l (collision_node hash leaves) = IsCollision hash leaves
    IsTrie l (idx_node bitmap shift hash nodes) =
        (l < 7)
        × (shift ≡ 5 * l)
        × (hash < 2 ^ 32)
        × (length bitmap ≡ 32)
        × (1 ≤ length (positions 0 bitmap))
        × IsTries l hash (positions 0 bitmap) nodes
    IsTrie l (full_node shift hash nodes) =
        (l < 7) × (shift ≡ 5 * l) × (hash < 2 ^ 32) × IsTries l hash (positions 0 all_ones) nodes

    pub IsTries : ℕ → ℕ → List ℕ → MapNodes K V → Type 0
    IsTries l r [] nil = Unit
    IsTries l r [] (cons n ns) = ⊥
    IsTries l r (p ∷ ps) nil = ⊥
    IsTries l r (p ∷ ps) (cons n ns) =
        Agree l r (get_hash n)
        × (digit (get_hash n) (5 * l) ≡ p)
        × IsTrie (suc l) n
        × IsTries l r ps ns

module _ {ℓ} {K V : Type ℓ} where
  -- How many leaves there are.
  unfoldable mutual
    pub size : MapNode K V → ℕ
    size empty_node = 0
    size (leaf_node leaf) = 1
    size (collision_node hash leaves) = length leaves
    size (idx_node bitmap shift hash nodes) = sizes nodes
    size (full_node shift hash nodes) = sizes nodes

    pub sizes : MapNodes K V → ℕ
    sizes nil = 0
    sizes (cons n ns) = size n + sizes ns

module _ {ℓ} {K V : Type ℓ} (eq : Equality K V) where
  pub get_hash-lt : (l : ℕ) (n : MapNode K V) → IsTrie eq l n → get_hash n < 2 ^ 32
  unfolding get_hash
  get_hash-lt l empty_node t = absurd t
  get_hash-lt l (leaf_node leaf) t = t
  get_hash-lt l (collision_node hash leaves) t = t.0
  get_hash-lt l (idx_node bitmap shift hash nodes) t = t.2
  get_hash-lt l (full_node shift hash nodes) t = t.2

  -- The search in the child at digit `m`, if there is one.
  unfoldable pub seek : List ℕ → MapNodes K V → ℕ → ℕ → K → Run (Option (Leaf K V))
  seek [] ns m h q = ok none
  seek (p ∷ ps) nil m h q = ok none
  seek (p ∷ ps) (cons n ns) m h q =
      let rest = seek ps ns m h q in if m == p then find eq n h q else rest

  pub seek-absent :
      (ps : List ℕ) (ns : MapNodes K V) (m h : ℕ) (q : K)
      → All (λ p. m ≢ p) ps
      → seek ps ns m h q ≡ ok none
  unfolding seek
  seek-absent [] ns m h q a = refl
  seek-absent (p ∷ ps) nil m h q a = refl
  seek-absent (p ∷ ps) (cons n ns) m h q a = rw (==-ne m p a.0) (seek-absent ps ns m h q a.1)

  -- A number that stands behind the first is not the first.
  pub fetch-ne : (p m : ℕ) (ps : List ℕ) (i : ℕ) → All (λ q. p ≢ q) ps → fetch ps i ≡ ok m → m ≢ p
  fetch-ne p m [] i a e = absurd (cc)
  fetch-ne p m (q ∷ ps) zero a e = λ s. a.0 (cc)
  fetch-ne p m (q ∷ ps) (suc i) a e = fetch-ne p m ps i a.1 e

  pub find_at-seek :
      (ps : List ℕ) (ns : MapNodes K V) (l r i m h : ℕ) (q : K)
      → IsTries eq l r ps ns
      → Distinct ps
      → fetch ps i ≡ ok m
      → find_at eq ns i h q ≡ seek ps ns m h q
  unfolding seek find
  find_at-seek [] ns l r i m h q t d e = absurd (cc)
  find_at-seek (p ∷ ps) nil l r i m h q t d e = absurd t
  find_at-seek (p ∷ ps) (cons n ns) l r zero m h q t d e = let e' : m ≡ p = cc in rw (e', ==_refl p)
  find_at-seek (p ∷ ps) (cons n ns) l r (suc i) m h q t d e =
      rw (==-ne m p (fetch-ne p m ps i d.0 e)) (find_at-seek ps ns l r i m h q t.3 d.1 e)
