-- ===== src/HashMap/RemoveLeaf.antt =====
-- `collision_node_without` and `leaf_node_without` of src/vm/seq.c.
use saurus.Base.{
  ℕ, zero, suc, ◌%◌, ◌^◌, ◌≡◌, refl, ap, sym, subst, ◌∙◌, none, some, List, [], ◌∷◌, length, ==-ne,
  Bool-cases, inl, inr, ok, fetch, ◌>>=◌, All, arith,
}
use saurus.HashMap.Without.{
  Removal, same, null, other, remove_leaf, collision_drop_leaf, collision_node_without, without,
}
use saurus.HashMap.Trie.{IsTrie, IsCollision, size}
use saurus.HashMap.Written.{EqualityLaws}
use saurus.HashMap.Collisions.{first_match, index-first_match, key_congr, first_match_congr}
use saurus.HashMap.Leaves.{find-collision}
use saurus.HashMap.Removed.{Removes}
use saurus.HashMap.Dropped.{Dropped, unmatched, matched, remove_leaf-Dropped, other_leaf}
use saurus.HashMap.{
  Equality, Leaf, MapNode, leaf_node, collision_node, get_hash, find, leaf_matches,
  collision_node_find_index,
}
use native.Mathlib.Decide.{ℕ_discrete}

module _ {ℓ} {K V : Type ℓ} (eq : Equality K V) (laws : EqualityLaws eq) (hash : ℕ) (key : K) where
  All-found :
      (node_hash : ℕ) (leaves : List (Leaf K V)) (i : ℕ) (x : Leaf K V)
      → All (λ y. y.hash ≡ node_hash) leaves
      → fetch leaves i ≡ ok x
      → x.hash ≡ node_hash
  All-found node_hash [] i x a e = absurd (cc)
  All-found node_hash (y ∷ leaves) zero x a e =
      let e' : y ≡ x = cc in ap (λ z. z.hash) (sym e') ∙ a.0
  All-found node_hash (y ∷ leaves) (suc i) x a e = All-found node_hash leaves i x a.1 e

  first_match-hash :
      (leaves : List (Leaf K V)) (x : Leaf K V)
      → first_match eq leaves hash key ≡ some x
      → x.hash ≡ hash
  first_match-hash [] x e = absurd (cc)
  first_match-hash (y ∷ leaves) x e = elim (Bool-cases (leaf_matches eq y hash key)) [
    | inl k ↦
        let e' : some y ≡ some x = (rw k at e) in
        let e'' : y ≡ x = cc in ap (λ z. z.hash) (sym e'') ∙ (matched eq laws hash key y k).0
    | inr k ↦ first_match-hash leaves x (rw k at e)
  ]

  module _ (l : ℕ) where
    -- On a leaf.
    pub leaf-Removes :
        (x : Leaf K V)
        → (r : Removal K V) × (without eq (leaf_node x) hash key ≡ ok r)
          × Removes eq l (leaf_node x) hash key r
    unfolding without find size
    leaf-Removes x = elim (Bool-cases (leaf_matches eq x hash key)) [
      | inl e ↦
          let (same_hash, same_key) = matched eq laws hash key x e in
          (
            null,
            rw e,
            record {
              follows = tt;
              hit = λ q c. refl;
              miss = λ h q ne.
                  ap ok (sym (rw (unmatched eq laws hash key x h q same_hash same_key ne)));
              outcome = (x, rw e, refl);
            },
          )
      | inr e ↦ (
        same,
        rw e,
        record {
          follows = tt;
          hit = λ q c. rw (key_congr eq laws q key x.key c, e);
          miss = λ h q ne. refl;
          outcome = rw e;
        },
      )
    ]

    -- On colliding leaves.
    module _ (node_hash : ℕ) (leaves : List (Leaf K V)) (t : IsCollision eq node_hash leaves) where
      absent-Removes :
          first_match eq leaves hash key ≡ none
          → Removes eq l (collision_node node_hash leaves) hash key same
      absent-Removes e = record {
        follows = tt;
        hit = λ q c.
            find-collision eq laws l node_hash leaves hash q
            ∙ ap ok (first_match_congr eq laws leaves hash q key c ∙ e);
        miss = λ h q ne. refl;
        outcome = find-collision eq laws l node_hash leaves hash key ∙ ap ok e;
      }

      module _ (rest : List (Leaf K V)) (w : Dropped eq laws hash key leaves rest)
          (same_hash : node_hash ≡ hash) (x : Leaf K V)
          (was : first_match eq leaves hash key ≡ some x) where
        -- A node that finds what the rest of the leaves finds.
        rest-Removes :
            (c : MapNode K V)
            → IsTrie eq l c
            → get_hash c ≡ node_hash
            → ((h : ℕ) (q : K) → find eq c h q ≡ ok (first_match eq rest h q))
            → size c ≡ length rest
            → Removes eq l (collision_node node_hash leaves) hash key (other c)
        unfolding get_hash size
        rest-Removes c trie e finds s = record {
          follows = (trie, ap (λ h. h % 32 ^ l) (sym e));
          hit = λ q k. finds hash q ∙ ap ok (w.hit q k);
          miss = λ h q ne.
              finds h q
              ∙ ap ok (w.miss h q ne)
              ∙ sym (find-collision eq laws l node_hash leaves h q);
          outcome = (
            x,
            find-collision eq laws l node_hash leaves hash key ∙ ap ok was,
            omega (arith, s, w.width),
          );
        }

      drop-Removes :
          (i : ℕ) (x : Leaf K V)
          → node_hash ≡ hash
          → collision_node_find_index eq leaves hash key ≡ some i
          → first_match eq leaves hash key ≡ some x
          → fetch leaves i ≡ ok x
          → (r : Removal K V) × (collision_drop_leaf leaves hash i ≡ ok r)
            × Removes eq l (collision_node node_hash leaves) hash key r
      unfolding collision_drop_leaf find get_hash size
      drop-Removes i x same_hash e was f =
          let w =
            remove_leaf-Dropped eq laws hash key leaves i
              (subst (λ v. All (λ y. y.hash ≡ v) leaves) same_hash t.2) t.3 e in
          elim (ℕ_discrete (length leaves) 2) [
            | yes two ↦
                let (y, run, rest) = other_leaf eq laws hash key leaves i x two f in
                let w' = subst (Dropped eq laws hash key leaves) rest w in
                (
                  other (leaf_node y),
                  rw two (ap (λ o. o >>= λ y'. ok (other (leaf_node y'))) run),
                  rest-Removes (y ∷ []) w' same_hash x was (leaf_node y)
                      (rw (w'.hashes.0, ← same_hash) t.0) (w'.hashes.0 ∙ sym same_hash)
                      (λ h q. refl) refl,
                )
            | no more ↦ (
              other (collision_node hash (remove_leaf leaves i)),
              rw (==-ne (length leaves) 2 more) refl,
              rest-Removes (remove_leaf leaves i) w same_hash x was
                  (collision_node hash (remove_leaf leaves i))
                  (rw (← same_hash) t.0, omega (arith, w.width, t.1), w.hashes, w.distinct)
                  (sym same_hash) (λ h q. find-collision eq laws l hash (remove_leaf leaves i) h q)
                  refl,
            )
          ]

      collision_node_without-Removes :
          (r : Removal K V) × (collision_node_without eq leaves hash key ≡ ok r)
          × Removes eq l (collision_node node_hash leaves) hash key r
      unfolding collision_node_without
      collision_node_without-Removes = elim (index-first_match eq leaves hash key) [
        | inl (a, b) ↦ (same, rw (collision_node_without, a) refl, absent-Removes b)
        | inr (i, x, a, b, c) ↦
            let same_hash =
              sym (All-found node_hash leaves i x t.2 c) ∙ first_match-hash leaves x b in
            let (r, run, p) = drop-Removes i x same_hash a b c in
            (r, rw (collision_node_without, a) run, p)
      ]

      pub collision-Removes :
          (r : Removal K V) × (without eq (collision_node node_hash leaves) hash key ≡ ok r)
          × Removes eq l (collision_node node_hash leaves) hash key r
      unfolding without
      collision-Removes = collision_node_without-Removes
