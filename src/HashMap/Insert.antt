-- ===== src/HashMap/Insert.antt =====
-- `vt->set` of src/vm/seq.c on every class of nodes: on eight levels of fuel it does its part.
use saurus.Base.{
  ℕ, zero, suc, ◌+◌, ◌*◌, ◌^◌, ◌≤◌, ◌<◌, ◌≡◌, ◌≢◌, refl, ap, sym, subst, ◌∙◌, Bool, true, false,
  Option, none, some, List, [], ◌∷◌, length, ◌==◌, ==_refl, ==-ne, Run, ok, ◌>>=◌, All, arith,
}
use saurus.HashMap.Bits.{digit, bit_of, bitpos, replicate, word}
use saurus.HashMap.Digits.{Agree, Agree-all, digit-lt, mask-digit}
use saurus.HashMap.Positions.{positions}
use saurus.HashMap.Update.{
  Update, or_fresh, create_idx_node3, idx_node_set, leaf_node_set, node_set,
}
use saurus.HashMap.Trie.{IsTrie, IsCollision, IsTries, size, seek}
use native.Mathlib.Decide.{ℕ_discrete}
use saurus.HashMap.Inner.{find-idx, find-full}
use saurus.HashMap.Create.{Built, create_idx_node-Built}
use saurus.HashMap.Written.{EqualityLaws, Puts}
use saurus.HashMap.SetChild.{idx_node_set-Puts, full_node_set-Puts}
use saurus.HashMap.Leaves.{leaf_node_set-Puts, collision_node_set-Puts, find-collision}
use saurus.HashMap.Collisions.{first_match}
use saurus.HashMap.{
  Equality, Leaf, MapNode, nil, cons, empty_node, leaf_node, collision_node, idx_node, full_node,
  get_hash, find, create_idx_node,
}

-- A word with one bit set has one digit.
positions-zeros : (o w : ℕ) → positions o (replicate w false) ≡ []
positions-zeros o zero = refl
positions-zeros o (suc w) = positions-zeros (suc o) w

pub positions-bitpos : (o w m p : ℕ) → m < w → p ≡ o + m → positions o (bitpos w m) ≡ p ∷ []
unfolding bitpos
positions-bitpos o zero m p k e = absurd (omega arith)
positions-bitpos o (suc w) zero p k e =
    rw (positions-zeros (suc o) w) (ap (λ t. t ∷ []) (omega (arith, e)))
positions-bitpos o (suc w) (suc m) p k e =
    positions-bitpos (suc o) w m p (omega arith) (omega arith)

length-replicate : (w : ℕ) → length (replicate w false) ≡ w
length-replicate zero = refl
length-replicate (suc w) = ap suc (length-replicate w)

length-bitpos : (w m : ℕ) → length (bitpos w m) ≡ w
unfolding bitpos
length-bitpos zero m = refl
length-bitpos (suc w) zero = ap suc (length-replicate w)
length-bitpos (suc w) (suc m) = ap suc (length-bitpos w m)

-- Different hashes differ before the last level.
deeper : (l a b : ℕ) → l ≤ 7 → a < 2 ^ 32 → b < 2 ^ 32 → Agree l a b → b ≢ a → l < 7
deeper l a b le la lb e ne = elim (ℕ_discrete l 7) [
  | yes p ↦ absurd (ne (sym (Agree-all a b la lb (subst (λ x. Agree x a b) p e))))
  | no p ↦ omega arith
]

module _ {ℓ} {K V : Type ℓ} (eq : Equality K V) (laws : EqualityLaws eq) where
  -- `create_idx_node3` on a branch that finds nothing at other hashes than its own.
  module _ (l : ℕ) (leaf : Leaf K V) (deep : l < 7) (leaf_lt : leaf.hash < 2 ^ 32)
      (branch : MapNode K V) (agrees : Agree l (get_hash branch) leaf.hash)
      (t : IsTrie eq (suc l) branch)
      (elsewhere : (h : ℕ) (q : K) → h ≢ get_hash branch → find eq branch h q ≡ ok none) where
    abbrev own : ℕ
    own = digit (get_hash branch) (5 * l)

    own_position : positions 0 (bit_of own) ≡ own ∷ []
    own_position =
        positions-bitpos 0 word own own (digit-lt (get_hash branch) (5 * l)) (omega arith)

    branch-IsTries : IsTries eq l (get_hash branch) (positions 0 (bit_of own)) (cons branch nil)
    branch-IsTries = rw own_position (refl, refl, t, tt)

    -- The index node over the branch finds what the branch finds.
    finds-branch :
        (n : MapNode K V)
        → Built eq l (get_hash branch) (positions 0 (bit_of own)) (cons branch nil) n
        → (h : ℕ) (q : K) → find eq n h q ≡ find eq branch h q
    unfolding seek
    finds-branch n b h q = elim (ℕ_discrete (digit h (5 * l)) own) [
      | yes e ↦ b.finds h q ∙ rw (own_position, e, ==_refl own) refl
      | no e ↦
          b.finds h q
          ∙ rw (own_position, ==-ne (digit h (5 * l)) own e)
              (sym (elsewhere h q (λ s. e (ap (λ x. digit x (5 * l)) s))))
    ]

    branch-Puts :
        (n : MapNode K V) (node : Option (MapNode K V)) (added : Bool)
        → Built eq l (get_hash branch) (positions 0 (bit_of own)) (cons branch nil) n
        → Puts eq l n leaf (record { node = node; added = added })
        → Puts eq l branch leaf (or_fresh n (record { node = node; added = added }))
    unfolding size
    branch-Puts n none added b p = record {
      trie = p.trie;
      agree = p.agree;
      hit = p.hit;
      miss = λ h q ne. p.miss h q ne ∙ finds-branch n b h q;
      counts = omega (arith, p.counts, b.counts);
      fresh = λ e. sym (finds-branch n b leaf.hash leaf.key) ∙ p.fresh e;
      present =
          λ e. let (lf, run) = p.present e in (lf, sym (finds-branch n b leaf.hash leaf.key) ∙ run);
    }
    branch-Puts n (some c) added b p = record {
      trie = p.trie;
      agree = p.agree;
      hit = p.hit;
      miss = λ h q ne. p.miss h q ne ∙ finds-branch n b h q;
      counts = omega (arith, p.counts, b.counts);
      fresh = λ e. sym (finds-branch n b leaf.hash leaf.key) ∙ p.fresh e;
      present =
          λ e. let (lf, run) = p.present e in (lf, sym (finds-branch n b leaf.hash leaf.key) ∙ run);
    }

    module _ (set_child : MapNode K V → Run (Update K V))
        (child_Puts : (c : MapNode K V)
          → IsTrie eq (suc l) c
          → Agree (suc l) (get_hash c) leaf.hash
          → (u : Update K V) × (set_child c ≡ ok u) × Puts eq (suc l) c leaf u) where
      create_idx_node3-ok :
          (n : MapNode K V) (u : Update K V)
          → create_idx_node (bit_of own) (cons branch nil) (5 * l) ≡ ok n
          → idx_node_set (bit_of own) (cons branch nil) (5 * l) leaf set_child ≡ ok u
          → create_idx_node3 (5 * l) branch leaf set_child ≡ ok (or_fresh n u)
      unfolding create_idx_node3
      create_idx_node3-ok n u made run =
          ap
            (λ x. x >>= λ m. create_idx_node (bit_of m) (cons branch nil) (5 * l) >>= λ n'.
              idx_node_set (bit_of m) (cons branch nil) (5 * l) leaf set_child >>= λ u'.
              ok (or_fresh n' u'))
            (mask-digit (get_hash branch) l deep)
          ∙ ap
              (λ x. x >>= λ n'.
                idx_node_set (bit_of own) (cons branch nil) (5 * l) leaf set_child >>= λ u'.
                ok (or_fresh n' u'))
              made
          ∙ ap (λ x. x >>= λ u'. ok (or_fresh n u')) run

      create_idx_node3-Puts :
          (u : Update K V) × (create_idx_node3 (5 * l) branch leaf set_child ≡ ok u)
          × Puts eq l branch leaf u
      create_idx_node3-Puts =
          let some_bit : 1 ≤ length (positions 0 (bit_of own)) = (rw own_position (omega arith)) in
          let (n, made, b) =
            create_idx_node-Built eq l (get_hash branch) deep (cons branch nil) (bit_of own)
              (length-bitpos word own) some_bit branch-IsTries in
          let (u, run, p) =
            idx_node_set-Puts eq laws l (get_hash branch) leaf deep leaf_lt agrees set_child
              child_Puts (bit_of own) (length-bitpos word own) some_bit (cons branch nil)
              branch-IsTries n b in
          (or_fresh n u, create_idx_node3-ok n u made run, branch-Puts n u.node u.added b p)

  -- The search of a leaf or of colliding leaves at another hash.
  leaf-elsewhere :
      (old : Leaf K V) (h : ℕ) (q : K) → h ≢ old.hash → find eq (leaf_node old) h q ≡ ok none
  unfolding find
  leaf-elsewhere old h q ne = rw (==-ne h old.hash ne) refl

  first_match-elsewhere :
      (hash : ℕ) (leaves : List (Leaf K V)) (h : ℕ) (q : K)
      → All (λ x. x.hash ≡ hash) leaves
      → h ≢ hash
      → first_match eq leaves h q ≡ none
  first_match-elsewhere hash [] h q a ne = refl
  first_match-elsewhere hash (x ∷ leaves) h q a ne =
      rw (==-ne h x.hash (λ e. ne (e ∙ a.0))) (first_match-elsewhere hash leaves h q a.1 ne)

  -- `set` does its part at level `l` on fuel `f`.
  abbrev Sets : ℕ → ℕ → Type ℓ
  Sets f l =
      (n : MapNode K V) (leaf : Leaf K V)
      → IsTrie eq l n
      → leaf.hash < 2 ^ 32
      → Agree l (get_hash n) leaf.hash
      → (u : Update K V) × (node_set eq f n (5 * l) leaf ≡ ok u) × Puts eq l n leaf u

  module _ (f l : ℕ) (below : Sets f (suc l)) (leaf : Leaf K V) (lt : leaf.hash < 2 ^ 32) where
    abbrev set_below : MapNode K V → Run (Update K V)
    set_below c = node_set eq f c (5 * l + 5) leaf

    set_below-Puts :
        (c : MapNode K V)
        → IsTrie eq (suc l) c
        → Agree (suc l) (get_hash c) leaf.hash
        → (u : Update K V) × (set_below c ≡ ok u) × Puts eq (suc l) c leaf u
    set_below-Puts c t a =
        subst (λ s. (u : Update K V) × (node_set eq f c s leaf ≡ ok u) × Puts eq (suc l) c leaf u)
          (omega arith) (below c leaf t lt a)

  module _ (f l : ℕ) (le : l ≤ 7) (below : l < 7 → Sets f (suc l)) where
    -- On a leaf and on colliding leaves, with the leaf's hash or another.
    leaf-Sets :
        (old leaf : Leaf K V)
        → old.hash < 2 ^ 32
        → leaf.hash < 2 ^ 32
        → Agree l old.hash leaf.hash
        → (u : Update K V) × (node_set eq (suc f) (leaf_node old) (5 * l) leaf ≡ ok u)
          × Puts eq l (leaf_node old) leaf u
    unfolding node_set get_hash
    leaf-Sets old leaf t lt a = elim (ℕ_discrete leaf.hash old.hash) [
      | yes e ↦ (
        leaf_node_set eq old leaf,
        rw (e, ==_refl old.hash),
        leaf_node_set-Puts eq laws l old leaf lt e,
      )
      | no ne ↦
          let deep = deeper l old.hash leaf.hash le t lt a ne in
          rw (==-ne leaf.hash old.hash ne) (
            create_idx_node3-Puts l leaf deep lt (leaf_node old) a t (leaf-elsewhere old)
              (set_below f l (below deep) leaf lt) (set_below-Puts f l (below deep) leaf lt))
    ]

    collision-Sets :
        (hash : ℕ) (leaves : List (Leaf K V)) (leaf : Leaf K V)
        → IsCollision eq hash leaves
        → leaf.hash < 2 ^ 32
        → Agree l hash leaf.hash
        → (u : Update K V) × (node_set eq (suc f) (collision_node hash leaves) (5 * l) leaf ≡ ok u)
          × Puts eq l (collision_node hash leaves) leaf u
    unfolding node_set get_hash
    collision-Sets hash leaves leaf t lt a = elim (ℕ_discrete leaf.hash hash) [
      | yes e ↦
          let (u, run, p) = collision_node_set-Puts eq laws l hash leaves leaf t e in
          let same : (leaf.hash == hash) ≡ true =
            ap (λ x. leaf.hash == x) (sym e) ∙ ==_refl leaf.hash in
          (u, rw same run, p)
      | no ne ↦
          let deep = deeper l hash leaf.hash le t.0 lt a ne in
          rw (==-ne leaf.hash hash ne) (
            create_idx_node3-Puts l leaf deep lt (collision_node hash leaves) a t
              (λ h q ne'.
                find-collision eq laws l hash leaves h q
                ∙ ap ok (first_match-elsewhere hash leaves h q t.2 ne'))
              (set_below f l (below deep) leaf lt) (set_below-Puts f l (below deep) leaf lt))
    ]

    -- On the inner nodes, by their child at the leaf's digit.
    inner-Sets : Sets (suc f) l
    unfolding node_set get_hash size
    inner-Sets empty_node leaf t lt a = absurd t
    inner-Sets (leaf_node old) leaf t lt a = leaf-Sets old leaf t lt a
    inner-Sets (collision_node hash leaves) leaf t lt a = collision-Sets hash leaves leaf t lt a
    inner-Sets (idx_node bitmap shift hash ns) leaf t lt a =
        let child = below t.0 in
        idx_node_set-Puts eq laws l hash leaf t.0 lt a (set_below f l child leaf lt)
          (set_below-Puts f l child leaf lt) bitmap t.3 t.4 ns t.5 (idx_node bitmap shift hash ns)
          (record {
            trie = t;
            agree = refl;
            finds = find-idx eq l bitmap shift hash ns t;
            counts = refl;
          })
    inner-Sets (full_node shift hash ns) leaf t lt a =
        let child = below t.0 in
        full_node_set-Puts eq laws l hash leaf t.0 lt a (set_below f l child leaf lt)
          (set_below-Puts f l child leaf lt) ns t.3 (full_node shift hash ns)
          (record { trie = t; agree = refl; finds = find-full eq l shift hash ns t; counts = refl })

  -- `set` on fuel that lasts to the last level.
  pub node_set-Puts : (f l : ℕ) → 8 ≤ f + l → l ≤ 7 → Sets f l
  node_set-Puts zero l enough le = absurd (omega arith)
  node_set-Puts (suc f) l enough le =
      inner-Sets f l le (λ deep. node_set-Puts f (suc l) (omega arith) (omega arith))
