-- ===== src/HashMap/RemoveChild.antt =====
-- `full_node_without` of src/vm/seq.c once its child has answered, and what it shares with
-- `idx_node_without`.
use saurus.Base.{
  ℕ, zero, suc, ◌+◌, ◌*◌, ◌≤◌, ◌<◌, ◌≡◌, refl, ap, sym, subst, ◌∙◌, Bool, true, false, none, List,
  [], ◌∷◌, length, length-set, set, ok, fetch, ◌>>=◌, arith,
}
use saurus.HashMap.Bits.{digit, all_ones, bit_of, bitpos, bit_not, bits_eq, replicate}
use saurus.HashMap.Digits.{Agree-down, digit-lt}
use saurus.HashMap.BitLaws.{bit, bit_not-set}
use saurus.HashMap.Positions.{positions, remove_at, positions-Distinct, positions-set-false}
use saurus.HashMap.Without.{Removal, same, null, other, full_without_child}
use saurus.HashMap.Trie.{IsTries, size, sizes, get_hash-lt}
use saurus.HashMap.Inner.{fetch-all_ones, bit-ones, rank-ones}
use saurus.HashMap.Arrays.{Child, Fits, Copied, store_node-Copied, remove_node-Copied}
use saurus.HashMap.Create.{Built, create_idx_node-Built, create_full_node-Built}
use saurus.HashMap.Written.{EqualityLaws}
use saurus.HashMap.Removed.{Removes, same-Removes, swapped-Removes}
use saurus.HashMap.{
  Equality, MapNode, MapNodes, nil, cons, fetch_node, get_hash, create_idx_node, create_full_node,
}

pub length-remove_at : (ps : List ℕ) (i : ℕ) → length ps ≤ length (remove_at ps i) + 1
length-remove_at [] i = omega arith
length-remove_at (p ∷ ps) zero = omega arith
length-remove_at (p ∷ ps) (suc i) = omega (arith, length-remove_at ps i)

nonzero-positions :
    (o : ℕ) (b : List Bool) (w : ℕ)
    → length b ≡ w
    → bits_eq b (replicate w false) ≡ false
    → 1 ≤ length (positions o b)
unfolding bits_eq
nonzero-positions o [] zero e k = absurd (cc)
nonzero-positions o [] (suc w) e k = absurd (omega (arith, e))
nonzero-positions o (a ∷ b) zero e k = absurd (omega (arith, e))
nonzero-positions o (true ∷ b) (suc w) e k = omega arith
nonzero-positions o (false ∷ b) (suc w) e k = nonzero-positions (suc o) b w (omega arith) k

-- A bitmap with another bit than `m` keeps one without `m`.
pub other_bit :
    (o : ℕ) (b : List Bool) (w m : ℕ)
    → length b ≡ w
    → bit b m ≡ true
    → bits_eq b (bitpos w m) ≡ false
    → 1 ≤ length (positions o (set b m false))
unfolding bits_eq bitpos
other_bit o [] w m e h k = absurd (cc)
other_bit o (a ∷ b) zero m e h k = absurd (omega (arith, e))
other_bit o (true ∷ b) (suc w) zero e h k = nonzero-positions (suc o) b w (omega arith) k
other_bit o (false ∷ b) (suc w) zero e h k = absurd (cc)
other_bit o (true ∷ b) (suc w) (suc m) e h k = omega arith
other_bit o (false ∷ b) (suc w) (suc m) e h k = other_bit (suc o) b w m (omega arith) h k

module _ {ℓ} {K V : Type ℓ} (eq : Equality K V) (laws : EqualityLaws eq) (hash : ℕ) (key : K) where
  module _ (l r : ℕ) (deep : l < 7) where
    abbrev pub at : ℕ
    at = digit hash (5 * l)

    pub at-lt : at < 32
    at-lt = digit-lt hash (5 * l)

    -- What follows a child fits where it stood.
    pub follows-Fits :
        (c c' : MapNode K V)
        → Fits eq l r at c
        → Removes eq (suc l) c hash key (other c')
        → Fits eq l r at c'
    follows-Fits c c' f p =
        let (t, a) = p.follows in
        let down =
          Agree-down l (get_hash c) (get_hash c') deep (get_hash-lt eq (suc l) c f.2)
            (get_hash-lt eq (suc l) c' t) a in
        (f.0 ∙ down.0, sym down.1 ∙ f.1, t)

    pub only_child :
        (p i : ℕ) (ns : MapNodes K V) (c : MapNode K V)
        → IsTries eq l r (p ∷ []) ns
        → fetch_node ns i ≡ ok c
        → sizes ns ≡ size c
    unfolding fetch_node size
    only_child p i nil c t e = absurd t
    only_child p i (cons n (cons n' ns)) c t e = absurd t.3
    only_child p zero (cons n nil) c t e = let e' : n ≡ c = cc in omega (arith, ap size e')
    only_child p (suc i) (cons n nil) c t e = absurd (cc)

    -- A node without its child at the digit.
    module _ (ps : List ℕ) (ns : MapNodes K V) (t : IsTries eq l r ps ns) (n : MapNode K V)
        (old : Built eq l r ps ns n) (i : ℕ) (c : Child eq l r ps ns i at) where
      pub removed-Removes :
          (bitmap : List Bool) (ns' : MapNodes K V)
          → length bitmap ≡ 32
          → 1 ≤ length (positions 0 bitmap)
          → Copied eq l r ps (positions 0 bitmap) ns ns' at (λ h q. ok none)
          → sizes ns' + size c.child ≡ sizes ns
          → Removes eq (suc l) c.child hash key null
          → (n' : MapNode K V) × (create_idx_node bitmap ns' (5 * l) ≡ ok n')
            × Removes eq l n hash key (other n')
      removed-Removes bitmap ns' w some_bit copied s p =
          let (n', made, new) =
            create_idx_node-Built eq l r deep ns' bitmap w some_bit copied.tries in
          (
            n',
            made,
            swapped-Removes eq l r ps ns n old hash key c.child c.found null p (positions 0 bitmap)
                ns' n' copied new (omega (arith, s)) p.outcome,
          )

    module _ (ns : MapNodes K V) (t : IsTries eq l r (positions 0 all_ones) ns) (n : MapNode K V)
        (old : Built eq l r (positions 0 all_ones) ns n)
        (c : Child eq l r (positions 0 all_ones) ns at at) where
      full_digit : fetch (positions 0 all_ones) at ≡ ok at
      full_digit = fetch-all_ones at at-lt

      pub full_without_child-Removes :
          (rc : Removal K V)
          → Removes eq (suc l) c.child hash key rc
          → (r' : Removal K V) × (full_without_child ns (5 * l) at rc ≡ ok r')
            × Removes eq l n hash key r'
      unfolding full_without_child
      full_without_child-Removes same p = (
        same,
        refl,
        same-Removes eq l r (positions 0 all_ones) ns n old hash key c.child c.found p,
      )
      full_without_child-Removes null p =
          let ps = positions 0 all_ones in
          let (ns', run, w, s) =
            remove_node-Copied eq l r ps ns at at c.child t (positions-Distinct 0 all_ones)
              full_digit c.fetched in
          let cleared : positions 0 (bit_not (bit_of at)) ≡ remove_at ps at =
            ap (positions 0) (bit_not-set at at-lt)
            ∙ positions-set-false 0 all_ones at (bit-ones 32 at at-lt)
            ∙ ap (remove_at ps) (rank-ones 32 at at-lt) in
          let (n', made, p') =
            removed-Removes ps ns t n old at c (bit_not (bit_of at)) ns'
              (ap length (bit_not-set at at-lt) ∙ length-set all_ones at false)
              (rw cleared (omega (arith, length-remove_at ps at)))
              (subst (λ x. Copied eq l r ps x ns ns' at (λ h q. ok none)) (sym cleared) w) s p in
          (
            other n',
            ap
                  (λ x. x >>= λ y.
                    create_idx_node (bit_not (bit_of at)) y (5 * l) >>= λ z. ok (other z))
                  run
                ∙ ap (λ x. x >>= λ z. ok (other z)) made,
            p',
          )
      full_without_child-Removes (other c') p =
          let ps = positions 0 all_ones in
          let (ns', run, w, s) =
            store_node-Copied eq l r ps ns at at c.child c' t (positions-Distinct 0 all_ones)
              full_digit c.fetched (follows-Fits c.child c' c.fits p) in
          let (n', made, new) = create_full_node-Built eq l r deep ns' w.tries in
          (
            other n',
            ap (λ x. x >>= λ y. create_full_node y (5 * l) >>= λ z. ok (other z)) run
                ∙ ap (λ x. x >>= λ z. ok (other z)) made,
            swapped-Removes eq l r ps ns n old hash key c.child c.found (other c') p ps ns' n' w new
                s p.outcome,
          )
