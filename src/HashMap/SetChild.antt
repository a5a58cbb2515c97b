-- ===== src/HashMap/SetChild.antt =====
-- `idx_node_set` and `full_node_set` of src/vm/seq.c do their part, if `set` on a child does.
use saurus.Base.{
  ℕ, zero, suc, ◌*◌, ◌^◌, ◌≤◌, ◌<◌, ◌≡◌, refl, ap, sym, subst, ◌∙◌, Bool, true, false, Option, none,
  some, List, [], ◌∷◌, length, length-set, set, Bool-cases, inl, inr, Run, ok, fetch, arith,
}
use saurus.HashMap.Bits.{digit, all_ones}
use saurus.HashMap.Digits.{Agree, Agree-suc, Agree-down, digit-lt, mask-digit}
use saurus.HashMap.BitLaws.{bit, rank, has_bit-bit, idx_node_index-rank, bit_or-set}
use saurus.HashMap.Positions.{
  positions, insert_at, fetch-positions, positions-Distinct, positions-set-true, positions-absent,
}
use saurus.HashMap.Update.{
  Update, kept, changed, idx_node_set, idx_set_child, idx_add_leaf, full_node_set,
}
use saurus.HashMap.Trie.{IsTrie, IsTries, size, get_hash-lt}
use saurus.HashMap.Inner.{fetch-all_ones}
use saurus.HashMap.Arrays.{
  Child, Fits, fetch_node-Child, store_node-Copied, insert_node-Copied, Copied,
}
use saurus.HashMap.Create.{
  Built, create_idx_node-Built, create_full_node-Built, create_idx_node2-Built,
}
use saurus.HashMap.Written.{EqualityLaws, Puts, result, m, stored-Puts, kept-Puts, inserted-Puts}
use saurus.HashMap.{
  Equality, Leaf, MapNode, MapNodes, leaf_node, fetch_node, store_node, get_hash, find,
  create_idx_node, create_full_node,
}

rank-le_at : (o : ℕ) (b : List Bool) (m : ℕ) → rank b m ≤ length (positions o b)
rank-le_at o [] m = omega arith
rank-le_at o (true ∷ b) zero = omega arith
rank-le_at o (false ∷ b) zero = omega arith
rank-le_at o (true ∷ b) (suc m) = omega (arith, rank-le_at (suc o) b m)
rank-le_at o (false ∷ b) (suc m) = rank-le_at (suc o) b m

rank-le : (b : List Bool) (m : ℕ) → rank b m ≤ length (positions 0 b)
rank-le = rank-le_at 0

insert_at-pos : (ps : List ℕ) (i p : ℕ) → 1 ≤ length (insert_at ps i p)
insert_at-pos ps zero p = omega arith
insert_at-pos [] (suc i) p = omega arith
insert_at-pos (q ∷ ps) (suc i) p = omega arith

module _ {ℓ} {K V : Type ℓ} (eq : Equality K V) (laws : EqualityLaws eq) (l r : ℕ) (leaf : Leaf K V)
    (deep : l < 7) (leaf_lt : leaf.hash < 2 ^ 32) (agrees : Agree l r leaf.hash)
    (set_child : MapNode K V → Run (Update K V))
    (child_Puts : (c : MapNode K V)
      → IsTrie eq (suc l) c
      → Agree (suc l) (get_hash c) leaf.hash
      → (u : Update K V) × (set_child c ≡ ok u) × Puts eq (suc l) c leaf u) where
  abbrev at : ℕ
  at = digit leaf.hash (5 * l)

  -- `set` on the child at the leaf's digit, and what it returns fits there again.
  set-Fits :
      (c : MapNode K V)
      → Fits eq l r at c
      → (u : Update K V) × (set_child c ≡ ok u)
        × Puts eq (suc l) c leaf u
        × Fits eq l r at (result eq c u)
  set-Fits c f =
      let below =
        Agree-suc l (get_hash c) leaf.hash deep (get_hash-lt eq (suc l) c f.2) leaf_lt
          (sym f.0 ∙ agrees) f.1 in
      let (u, run, p) = child_Puts c f.2 below in
      let down =
        Agree-down l (get_hash (result eq c u)) leaf.hash deep
          (get_hash-lt eq (suc l) (result eq c u) p.trie) leaf_lt p.agree in
      (u, run, p, (agrees ∙ sym down.0, down.1, p.trie))

  module _ (bitmap : List Bool) (w : length bitmap ≡ 32)
      (some_bit : 1 ≤ length (positions 0 bitmap)) (ns : MapNodes K V)
      (t : IsTries eq l r (positions 0 bitmap) ns) (n : MapNode K V)
      (old : Built eq l r (positions 0 bitmap) ns n) where
    idx_set_child-ok :
        (i : ℕ) (c c' n' : MapNode K V) (added : Bool) (ns' : MapNodes K V)
        → fetch_node ns i ≡ ok c
        → set_child c ≡ ok (changed c' added)
        → store_node ns i c' ≡ ok ns'
        → create_idx_node bitmap ns' (5 * l) ≡ ok n'
        → idx_set_child bitmap ns (5 * l) i set_child ≡ ok (changed n' added)
    unfolding idx_set_child
    idx_set_child-ok i c c' n' added ns' f run st made = rw (f, run, st, made)

    idx_set_child-kept :
        (i : ℕ) (c : MapNode K V) (added : Bool)
        → fetch_node ns i ≡ ok c
        → set_child c ≡ ok (kept added)
        → idx_set_child bitmap ns (5 * l) i set_child ≡ ok (kept added)
    unfolding idx_set_child
    idx_set_child-kept i c added f run = rw (f, run)

    finish_idx :
        (i : ℕ)
        → fetch (positions 0 bitmap) i ≡ ok at
        → (c : Child eq l r (positions 0 bitmap) ns i at) (node : Option (MapNode K V))
          (added : Bool)
        → set_child c.child ≡ ok (record { node = node; added = added })
        → Puts eq (suc l) c.child leaf (record { node = node; added = added })
        → Fits eq l r at (result eq c.child (record { node = node; added = added }))
        → (u : Update K V) × (idx_set_child bitmap ns (5 * l) i set_child ≡ ok u)
          × Puts eq l n leaf u
    finish_idx i e c none added run p f = (
      kept added,
      idx_set_child-kept i c.child added c.fetched run,
      kept-Puts eq laws l r (positions 0 bitmap) ns n old leaf agrees c.child added c.found p,
    )
    finish_idx i e c (some c') added run p f =
        let (ns', stored, copied, s) =
          store_node-Copied eq l r (positions 0 bitmap) ns i at c.child c' t
            (positions-Distinct 0 bitmap) e c.fetched f in
        let (n', made, built) =
          create_idx_node-Built eq l r deep ns' bitmap w some_bit copied.tries in
        (
          changed n' added,
          idx_set_child-ok i c.child c' n' added ns' c.fetched run stored made,
          stored-Puts eq laws l r (positions 0 bitmap) ns n old leaf agrees c.child c' added ns' n'
              c.found p copied s built,
        )

    idx_set_child-Puts :
        (i : ℕ)
        → fetch (positions 0 bitmap) i ≡ ok at
        → (u : Update K V) × (idx_set_child bitmap ns (5 * l) i set_child ≡ ok u)
          × Puts eq l n leaf u
    idx_set_child-Puts i e =
        let c =
          fetch_node-Child eq l r (positions 0 bitmap) ns i at t (positions-Distinct 0 bitmap) e in
        let (u, run, p, f) = set-Fits c.child c.fits in finish_idx i e c u.node u.added run p f

    idx_add_leaf-Puts :
        bit bitmap at ≡ false
        → (u : Update K V) × (idx_add_leaf bitmap ns (5 * l) at (rank bitmap at) leaf ≡ ok u)
          × Puts eq l n leaf u
    unfolding idx_add_leaf get_hash size
    idx_add_leaf-Puts e =
        let ps = positions 0 bitmap in
        let at_lt = digit-lt leaf.hash (5 * l) in
        let absent = positions-absent 0 bitmap at at e (omega arith) in
        let ps_eq = positions-set-true 0 bitmap at at e (omega (arith, w)) (omega arith) in
        let (ns', inserted, copied, s) =
          insert_node-Copied eq l r ps ns (rank bitmap at) at (leaf_node leaf) t absent
            (rank-le bitmap at) (agrees, refl, leaf_lt) in
        let copied' =
          subst (λ p. Copied eq l r ps p ns ns' at (find eq (leaf_node leaf))) (sym ps_eq) copied in
        let (n', made, built) =
          create_idx_node2-Built eq l r deep ns' (set bitmap at true)
            (length-set bitmap at true ∙ w) (rw ps_eq (insert_at-pos ps (rank bitmap at) at))
            copied'.tries in
        (
          changed n' true,
          rw (inserted, bit_or-set bitmap at w at_lt, made),
          inserted-Puts eq laws l r ps ns n old leaf agrees (positions 0 (set bitmap at true)) ns'
              n' absent copied' s built,
        )

    pub idx_node_set-Puts :
        (u : Update K V) × (idx_node_set bitmap ns (5 * l) leaf set_child ≡ ok u)
        × Puts eq l n leaf u
    unfolding idx_node_set
    idx_node_set-Puts =
        let at_lt = digit-lt leaf.hash (5 * l) in
        rw
          (
            mask-digit leaf.hash l deep,
            has_bit-bit bitmap at w at_lt,
            idx_node_index-rank bitmap at w at_lt,
          )
          (elim (Bool-cases (bit bitmap at)) [
            | inl e ↦ rw e (
                idx_set_child-Puts (rank bitmap at)
                  (fetch-positions 0 bitmap at e ∙ ap ok (omega arith)))
            | inr e ↦ rw e (idx_add_leaf-Puts e)
          ])

  module _ (ns : MapNodes K V) (t : IsTries eq l r (positions 0 all_ones) ns) (n : MapNode K V)
      (old : Built eq l r (positions 0 all_ones) ns n) where
    full_node_set-ok :
        (c c' n' : MapNode K V) (added : Bool) (ns' : MapNodes K V)
        → fetch_node ns at ≡ ok c
        → set_child c ≡ ok (changed c' added)
        → store_node ns at c' ≡ ok ns'
        → create_full_node ns' (5 * l) ≡ ok n'
        → full_node_set ns (5 * l) leaf.hash set_child ≡ ok (changed n' added)
    unfolding full_node_set
    full_node_set-ok c c' n' added ns' f run st made =
        rw (mask-digit leaf.hash l deep, f, run, st, made)

    full_node_set-kept :
        (c : MapNode K V) (added : Bool)
        → fetch_node ns at ≡ ok c
        → set_child c ≡ ok (kept added)
        → full_node_set ns (5 * l) leaf.hash set_child ≡ ok (kept added)
    unfolding full_node_set
    full_node_set-kept c added f run = rw (mask-digit leaf.hash l deep, f, run)

    finish_full :
        fetch (positions 0 all_ones) at ≡ ok at
        → (c : Child eq l r (positions 0 all_ones) ns at at) (node : Option (MapNode K V))
          (added : Bool)
        → set_child c.child ≡ ok (record { node = node; added = added })
        → Puts eq (suc l) c.child leaf (record { node = node; added = added })
        → Fits eq l r at (result eq c.child (record { node = node; added = added }))
        → (u : Update K V) × (full_node_set ns (5 * l) leaf.hash set_child ≡ ok u)
          × Puts eq l n leaf u
    finish_full e c none added run p f = (
      kept added,
      full_node_set-kept c.child added c.fetched run,
      kept-Puts eq laws l r (positions 0 all_ones) ns n old leaf agrees c.child added c.found p,
    )
    finish_full e c (some c') added run p f =
        let (ns', stored, copied, s) =
          store_node-Copied eq l r (positions 0 all_ones) ns at at c.child c' t
            (positions-Distinct 0 all_ones) e c.fetched f in
        let (n', made, built) = create_full_node-Built eq l r deep ns' copied.tries in
        (
          changed n' added,
          full_node_set-ok c.child c' n' added ns' c.fetched run stored made,
          stored-Puts eq laws l r (positions 0 all_ones) ns n old leaf agrees c.child c' added ns'
              n' c.found p copied s built,
        )

    pub full_node_set-Puts :
        (u : Update K V) × (full_node_set ns (5 * l) leaf.hash set_child ≡ ok u)
        × Puts eq l n leaf u
    full_node_set-Puts =
        let e = fetch-all_ones at (digit-lt leaf.hash (5 * l)) in
        let c =
          fetch_node-Child eq l r (positions 0 all_ones) ns at at t (positions-Distinct 0 all_ones)
            e in
        let (u, run, p, f) = set-Fits c.child c.fits in finish_full e c u.node u.added run p f
