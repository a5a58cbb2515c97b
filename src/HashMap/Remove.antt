-- ===== src/HashMap/Remove.antt =====
-- `vt->without` of src/vm/seq.c on every class of nodes.
use saurus.Base.{
  ℕ, zero, suc, ◌*◌, ◌≡◌, refl, ap, subst, ◌∙◌, Bool, false, none, List, [], ◌∷◌, Bool-cases, inl,
  inr, if◌then◌else◌, ok, ◌>>=◌, arith,
}
use saurus.HashMap.Bits.{digit, all_ones}
use saurus.HashMap.Digits.{digit-lt, mask-digit}
use saurus.HashMap.BitLaws.{bit, rank, has_bit-bit, idx_node_index-rank}
use saurus.HashMap.Positions.{positions, positions-absent, fetch-positions, positions-Distinct}
use saurus.HashMap.Without.{Removal, same, idx_without_child, without, without_at}
use saurus.HashMap.Trie.{IsTrie, IsTries, size, seek-absent}
use saurus.HashMap.Inner.{find-idx, find-full, fetch-all_ones}
use saurus.HashMap.Arrays.{fetch_node-Child}
use saurus.HashMap.Create.{Built}
use saurus.HashMap.Written.{EqualityLaws}
use saurus.HashMap.Removed.{Removes}
use saurus.HashMap.RemoveChild.{full_without_child-Removes}
use saurus.HashMap.RemoveIdx.{idx_without_child-Removes}
use saurus.HashMap.Shape.{IsRoot}
use saurus.HashMap.RemoveLeaf.{leaf-Removes, collision-Removes}
use saurus.HashMap.{
  Equality, MapNode, MapNodes, nil, cons, empty_node, leaf_node, collision_node, idx_node,
  full_node, fetch_node, get_hash, find,
}

module _ {ℓ} {K V : Type ℓ} (eq : Equality K V) (laws : EqualityLaws eq) (hash : ℕ) (key : K) where
  -- `without` does its part on `n`.
  abbrev Removed : ℕ → MapNode K V → Type ℓ
  Removed l n = (r : Removal K V) × (without eq n hash key ≡ ok r) × Removes eq l n hash key r

  -- It does on the child at `i`.
  abbrev RemovedAt : ℕ → MapNodes K V → Type ℓ
  RemovedAt l ns =
      (i : ℕ) (c : MapNode K V)
      → fetch_node ns i ≡ ok c
      → (rc : Removal K V) × (without_at eq ns i hash key ≡ ok rc)
        × Removes eq (suc l) c hash key rc

  full_node-Removed :
      (l shift h : ℕ) (ns : MapNodes K V)
      → IsTrie eq l (full_node shift h ns)
      → RemovedAt l ns
      → Removed l (full_node shift h ns)
  unfolding without get_hash size
  full_node-Removed l shift h ns t ih =
      let at : ℕ = digit hash (5 * l) in
      let c =
        fetch_node-Child eq l h (positions 0 all_ones) ns at at t.3 (positions-Distinct 0 all_ones)
          (fetch-all_ones at (digit-lt hash (5 * l))) in
      let (rc, run, p) = ih at c.child c.fetched in
      let old : Built eq l h (positions 0 all_ones) ns (full_node shift h ns) = record {
        trie = t;
        agree = refl;
        finds = find-full eq l shift h ns t;
        counts = refl;
      } in
      let (r', run', p') =
        full_without_child-Removes eq laws hash key l h t.0 ns t.3 (full_node shift h ns) old c rc
          p in
      (r', rw (t.1, mask-digit hash l t.0, run) run', p')

  idx_node-without :
      (l : ℕ) (bitmap : List Bool) (shift h : ℕ) (ns : MapNodes K V)
      → IsTrie eq l (idx_node bitmap shift h ns)
      → without eq (idx_node bitmap shift h ns) hash key ≡ (
          let m : ℕ = digit hash (5 * l) in
          let child = without_at eq ns (rank bitmap m) hash key in
          if bit bitmap m
          then (child >>= λ rc. idx_without_child bitmap ns (5 * l) m (rank bitmap m) rc)
          else ok same)
  unfolding without
  idx_node-without l bitmap shift h ns t =
      let m_lt = digit-lt hash (5 * l) in
      rw
        (
          t.1,
          mask-digit hash l t.0,
          has_bit-bit bitmap (digit hash (5 * l)) t.3 m_lt,
          idx_node_index-rank bitmap (digit hash (5 * l)) t.3 m_lt,
        )
        refl

  -- There is no child at the digit.
  absent-Removes :
      (l : ℕ) (bitmap : List Bool) (shift h : ℕ) (ns : MapNodes K V)
      → IsTrie eq l (idx_node bitmap shift h ns)
      → bit bitmap (digit hash (5 * l)) ≡ false
      → Removes eq l (idx_node bitmap shift h ns) hash key same
  absent-Removes l bitmap shift h ns t e =
      let m : ℕ = digit hash (5 * l) in
      let nowhere : (q : K) → find eq (idx_node bitmap shift h ns) hash q ≡ ok none = λ q.
        find-idx eq l bitmap shift h ns t hash q
        ∙ seek-absent eq (positions 0 bitmap) ns m hash q
            (positions-absent 0 bitmap m m e (omega arith)) in
      record { follows = tt; hit = λ q k. nowhere q; miss = λ h' q ne. refl; outcome = nowhere key }

  idx_node-Removed :
      (l : ℕ) (bitmap : List Bool) (shift h : ℕ) (ns : MapNodes K V)
      → IsTrie eq l (idx_node bitmap shift h ns)
      → RemovedAt l ns
      → Removed l (idx_node bitmap shift h ns)
  unfolding get_hash size
  idx_node-Removed l bitmap shift h ns t ih =
      let m : ℕ = digit hash (5 * l) in
      let step = idx_node-without l bitmap shift h ns t in
      elim (Bool-cases (bit bitmap m)) [
        | inl e ↦
            let ps = positions 0 bitmap in
            let c =
              fetch_node-Child eq l h ps ns (rank bitmap m) m t.5 (positions-Distinct 0 bitmap)
                (fetch-positions 0 bitmap m e ∙ ap ok (omega arith)) in
            let (rc, run, p) = ih (rank bitmap m) c.child c.fetched in
            let (r', run', p') =
              idx_without_child-Removes eq laws hash key l h t.0 bitmap t.3 t.4 ns t.5
                (idx_node bitmap shift h ns)
                (record {
                  trie = t;
                  agree = refl;
                  finds = find-idx eq l bitmap shift h ns t;
                  counts = refl;
                })
                e c rc p in
            (r', step ∙ rw (e, run) run', p')
        | inr e ↦ (same, step ∙ rw e refl, absent-Removes l bitmap shift h ns t e)
      ]

  mutual
    unfolding without fetch_node find

    without-Removed : (l : ℕ) (n : MapNode K V) → IsTrie eq l n → Removed l n
    without-Removed l empty_node t = absurd t
    without-Removed l (leaf_node x) t = leaf-Removes eq laws hash key l x
    without-Removed l (collision_node h leaves) t = collision-Removes eq laws hash key l h leaves t
    without-Removed l (idx_node bitmap shift h ns) t =
        idx_node-Removed l bitmap shift h ns t (without_at-Removed l h (positions 0 bitmap) ns t.5)
    without-Removed l (full_node shift h ns) t =
        full_node-Removed l shift h ns t (without_at-Removed l h (positions 0 all_ones) ns t.3)

    without_at-Removed :
        (l r : ℕ) (ps : List ℕ) (ns : MapNodes K V) → IsTries eq l r ps ns → RemovedAt l ns
    without_at-Removed l r ps nil t i c e = absurd (cc)
    without_at-Removed l r [] (cons n ns) t i c e = absurd t
    without_at-Removed l r (p ∷ ps) (cons n ns) t zero c e =
        let e' : n ≡ c = cc in
        subst
          (λ x.
            (rc : Removal K V) × (without eq n hash key ≡ ok rc) × Removes eq (suc l) x hash key rc)
          e' (without-Removed (suc l) n t.2)
    without_at-Removed l r (p ∷ ps) (cons n ns) t (suc i) c e =
        without_at-Removed l r ps ns t.3 i c e

  -- At the root.
  pub root-Removed : (n : MapNode K V) → IsRoot eq n → Removed 0 n
  unfolding without find
  root-Removed empty_node t = (
    same,
    refl,
    record { follows = tt; hit = λ q k. refl; miss = λ h q ne. refl; outcome = refl },
  )
  root-Removed (leaf_node x) t = without-Removed 0 (leaf_node x) t
  root-Removed (collision_node h leaves) t = without-Removed 0 (collision_node h leaves) t
  root-Removed (idx_node bitmap shift h ns) t = without-Removed 0 (idx_node bitmap shift h ns) t
  root-Removed (full_node shift h ns) t = without-Removed 0 (full_node shift h ns) t
