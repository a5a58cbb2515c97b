-- ===== src/HashMap/RemoveIdx.antt =====
-- `idx_node_without` of src/vm/seq.c once its child has answered.
use saurus.Base.{
  ℕ, suc, ◌*◌, ◌≤◌, ◌<◌, ◌≡◌, refl, ap, sym, subst, ◌∙◌, Bool, true, false, none, List, [], ◌∷◌,
  length, length-set, Bool-cases, inl, inr, ok, fetch, ◌>>=◌, arith,
}
use saurus.HashMap.Bits.{digit, bit_of, bit_and, bit_not, bits_eq}
use saurus.HashMap.Digits.{digit-lt}
use saurus.HashMap.BitLaws.{bit, rank, bit_and-set, bits_eq-eq}
use saurus.HashMap.Positions.{
  positions, remove_at, fetch-positions, positions-Distinct, positions-set-false,
}
use saurus.HashMap.Without.{Removal, same, null, other, idx_without_child, idx_drop_child}
use saurus.HashMap.Trie.{IsTries, seek-absent}
use saurus.HashMap.Arrays.{Child, Copied, store_node-Copied, remove_node-Copied}
use saurus.HashMap.Create.{Built, create_idx_node-Built}
use saurus.HashMap.Written.{EqualityLaws}
use saurus.HashMap.Insert.{positions-bitpos}
use saurus.HashMap.Removed.{Removes, same-Removes, swapped-Removes, emptied-Removes}
use saurus.HashMap.RemoveChild.{other_bit, follows-Fits, only_child, removed-Removes}
use saurus.HashMap.{Equality, MapNode, MapNodes, create_idx_node}

module _ {ℓ} {K V : Type ℓ} (eq : Equality K V) (laws : EqualityLaws eq) (hash : ℕ) (key : K) where
  module _ (l r : ℕ) (deep : l < 7) (bitmap : List Bool) (w : length bitmap ≡ 32)
      (some_bit : 1 ≤ length (positions 0 bitmap)) (ns : MapNodes K V)
      (t : IsTries eq l r (positions 0 bitmap) ns) (n : MapNode K V)
      (old : Built eq l r (positions 0 bitmap) ns n)
      (is_set : bit bitmap (digit hash (5 * l)) ≡ true)
      (c : Child eq l r
        (positions 0 bitmap)
        ns
        (rank bitmap (digit hash (5 * l)))
        (digit hash (5 * l))) where
    abbrev m : ℕ
    m = digit hash (5 * l)

    m-lt : m < 32
    m-lt = digit-lt hash (5 * l)

    idx_digit : fetch (positions 0 bitmap) (rank bitmap m) ≡ ok m
    idx_digit = fetch-positions 0 bitmap m is_set ∙ ap ok (omega arith)

    -- It was the only child.
    only-Removes :
        bits_eq bitmap (bit_of m) ≡ true
        → Removes eq (suc l) c.child hash key null
        → Removes eq l n hash key null
    only-Removes e p =
        let alone : positions 0 bitmap ≡ m ∷ [] =
          ap (positions 0) (bits_eq-eq bitmap (bit_of m) e)
          ∙ positions-bitpos 0 32 m m m-lt (omega arith) in
        emptied-Removes eq l r (positions 0 bitmap) ns n old hash key c.child c.found null p
          (λ m' ne h q. seek-absent eq (positions 0 bitmap) ns m' h q (rw alone (ne, tt)))
          (only_child eq laws hash key l r deep m (rank bitmap m) ns c.child
            (subst (λ x. IsTries eq l r x ns) alone t) c.fetched)
          refl

    -- It was one of several.
    idx_drop_child-Removes :
        bits_eq bitmap (bit_of m) ≡ false
        → Removes eq (suc l) c.child hash key null
        → (r' : Removal K V) × (idx_drop_child bitmap ns (5 * l) m (rank bitmap m) ≡ ok r')
          × Removes eq l n hash key r'
    unfolding idx_drop_child
    idx_drop_child-Removes e p =
        let ps = positions 0 bitmap in
        let b = bit_and bitmap (bit_not (bit_of m)) in
        let b_eq = bit_and-set bitmap m w m-lt in
        let (ns', run, copied, s) =
          remove_node-Copied eq l r ps ns (rank bitmap m) m c.child t (positions-Distinct 0 bitmap)
            idx_digit c.fetched in
        let cleared : positions 0 b ≡ remove_at ps (rank bitmap m) =
          ap (positions 0) b_eq ∙ positions-set-false 0 bitmap m is_set in
        let (n', made, p') =
          removed-Removes eq laws hash key l r deep ps ns t n old (rank bitmap m) c b ns'
            (ap length b_eq ∙ length-set bitmap m false ∙ w)
            (rw b_eq (other_bit 0 bitmap 32 m w is_set e))
            (subst (λ x. Copied eq l r ps x ns ns' m (λ h q. ok none)) (sym cleared) copied) s p in
        (
          other n',
          ap (λ x. x >>= λ y. create_idx_node b y (5 * l) >>= λ z. ok (other z)) run
              ∙ ap (λ x. x >>= λ z. ok (other z)) made,
          p',
        )

    pub idx_without_child-Removes :
        (rc : Removal K V)
        → Removes eq (suc l) c.child hash key rc
        → (r' : Removal K V) × (idx_without_child bitmap ns (5 * l) m (rank bitmap m) rc ≡ ok r')
          × Removes eq l n hash key r'
    unfolding idx_without_child
    idx_without_child-Removes same p =
        (same, refl, same-Removes eq l r (positions 0 bitmap) ns n old hash key c.child c.found p)
    idx_without_child-Removes null p = elim (Bool-cases (bits_eq bitmap (bit_of m))) [
      | inl e ↦ (null, rw e refl, only-Removes e p)
      | inr e ↦ rw e (idx_drop_child-Removes e p)
    ]
    idx_without_child-Removes (other c') p =
        let ps = positions 0 bitmap in
        let (ns', run, copied, s) =
          store_node-Copied eq l r ps ns (rank bitmap m) m c.child c' t
            (positions-Distinct 0 bitmap) idx_digit c.fetched
            (follows-Fits eq laws hash key l r deep c.child c' c.fits p) in
        let (n', made, new) =
          create_idx_node-Built eq l r deep ns' bitmap w some_bit copied.tries in
        (
          other n',
          ap (λ x. x >>= λ y. create_idx_node bitmap y (5 * l) >>= λ z. ok (other z)) run
              ∙ ap (λ x. x >>= λ z. ok (other z)) made,
          swapped-Removes eq l r ps ns n old hash key c.child c.found (other c') p ps ns' n' copied
              new s p.outcome,
        )
