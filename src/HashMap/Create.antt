-- ===== src/HashMap/Create.antt =====
-- The functions of src/vm/seq.c that make an inner node make one of the right shape.
use saurus.Base.{
  ℕ, suc, ◌*◌, ◌^◌, ◌≤◌, ◌<◌, ◌≡◌, refl, sym, subst, ◌∙◌, Bool, List, [], ◌∷◌, length, Bool-cases,
  inl, inr, ok, arith,
}
use saurus.HashMap.Bits.{all_ones, digit, bits_eq}
use saurus.HashMap.Digits.{Agree}
use saurus.HashMap.BitLaws.{bits_eq-eq}
use saurus.HashMap.Positions.{positions}
use saurus.HashMap.Trie.{IsTrie, IsTries, size, sizes, seek, get_hash-lt}
use saurus.HashMap.Inner.{find-idx, find-full}
use saurus.HashMap.{
  Equality, MapNode, idx_node, full_node, MapNodes, nil, cons, fetch_node, get_hash, find,
  create_full_node, create_idx_node, create_idx_node2,
}

module _ {ℓ} {K V : Type ℓ} (eq : Equality K V) (l : ℕ) where
  -- `n` is an inner node at level `l` with the children `ns` at the digits `ps`, and its hashes
  -- agree with `r`.
  pub record Built (r : ℕ) (ps : List ℕ) (ns : MapNodes K V) (n : MapNode K V) : Type ℓ where
    pub trie : IsTrie eq l n
    pub agree : Agree l r (get_hash n)
    pub finds : (h : ℕ) (q : K) → find eq n h q ≡ seek eq ps ns (digit h (5 * l)) h q
    pub counts : size n ≡ sizes ns

  -- Agreement is with any hash of the class.
  pub IsTries-Agree :
      (r r' : ℕ)
      → Agree l r' r
      → (ps : List ℕ) (ns : MapNodes K V) → IsTries eq l r ps ns
      → IsTries eq l r' ps ns
  IsTries-Agree r r' e [] nil t = tt
  IsTries-Agree r r' e [] (cons n ns) t = absurd t
  IsTries-Agree r r' e (p ∷ ps) nil t = absurd t
  IsTries-Agree r r' e (p ∷ ps) (cons n ns) t = (e ∙ t.0, t.1, t.2, IsTries-Agree r r' e ps ns t.3)

  -- The first child gives a new node its hash.
  first_child :
      (r : ℕ) (ps : List ℕ) (ns : MapNodes K V)
      → 1 ≤ length ps
      → IsTries eq l r ps ns
      → (c : MapNode K V) × (fetch_node ns 0 ≡ ok c)
        × Agree l r (get_hash c)
        × (get_hash c < 2 ^ 32)
        × IsTries eq l (get_hash c) ps ns
  unfolding fetch_node
  first_child r [] ns h t = absurd (omega arith)
  first_child r (p ∷ ps) nil h t = absurd t
  first_child r (p ∷ ps) (cons n ns) h t = (
    n,
    refl,
    t.0,
    get_hash-lt eq (suc l) n t.2,
    IsTries-Agree r (get_hash n) (sym t.0) (p ∷ ps) (cons n ns) t,
  )

  module _ (r : ℕ) (deep : l < 7) (ns : MapNodes K V) where
    pub create_idx_node-Built :
        (bitmap : List Bool)
        → length bitmap ≡ 32
        → 1 ≤ length (positions 0 bitmap)
        → IsTries eq l r (positions 0 bitmap) ns
        → (n : MapNode K V) × (create_idx_node bitmap ns (5 * l) ≡ ok n)
          × Built r (positions 0 bitmap) ns n
    unfolding create_idx_node get_hash size
    create_idx_node-Built bitmap w some_bit t =
        let (c, run, a, lt, t') = first_child r (positions 0 bitmap) ns some_bit t in
        (
          idx_node bitmap (5 * l) (get_hash c) ns,
          rw run,
          record {
            trie = (deep, refl, lt, w, some_bit, t');
            agree = a;
            finds = find-idx eq l bitmap (5 * l) (get_hash c) ns (deep, refl, lt, w, some_bit, t');
            counts = refl;
          },
        )

    pub create_full_node-Built :
        IsTries eq l r (positions 0 all_ones) ns
        → (n : MapNode K V) × (create_full_node ns (5 * l) ≡ ok n)
          × Built r (positions 0 all_ones) ns n
    unfolding create_full_node get_hash size
    create_full_node-Built t =
        let (c, run, a, lt, t') = first_child r (positions 0 all_ones) ns (omega arith) t in
        (
          full_node (5 * l) (get_hash c) ns,
          rw run,
          record {
            trie = (deep, refl, lt, t');
            agree = a;
            finds = find-full eq l (5 * l) (get_hash c) ns (deep, refl, lt, t');
            counts = refl;
          },
        )

    pub create_idx_node2-Built :
        (bitmap : List Bool)
        → length bitmap ≡ 32
        → 1 ≤ length (positions 0 bitmap)
        → IsTries eq l r (positions 0 bitmap) ns
        → (n : MapNode K V) × (create_idx_node2 bitmap ns (5 * l) ≡ ok n)
          × Built r (positions 0 bitmap) ns n
    unfolding create_idx_node2
    create_idx_node2-Built bitmap w some_bit t = elim (Bool-cases (bits_eq bitmap all_ones)) [
      | inl e ↦
          let full : all_ones ≡ bitmap = sym (bits_eq-eq bitmap all_ones e) in
          rw e (
            subst
              (λ b.
                (n : MapNode K V) × (create_full_node ns (5 * l) ≡ ok n)
                × Built r (positions 0 b) ns n)
              full
              (create_full_node-Built
                (subst (λ b. IsTries eq l r (positions 0 b) ns) (sym full) t)))
      | inr e ↦ rw e (create_idx_node-Built bitmap w some_bit t)
    ]
