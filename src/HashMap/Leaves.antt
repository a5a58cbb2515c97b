-- ===== src/HashMap/Leaves.antt =====
-- `leaf_node_set` and `collision_node_set` of src/vm/seq.c, on leaves with the new leaf's hash.
use saurus.Base.{
  ℕ, ◌%◌, ◌^◌, ◌<◌, ◌≡◌, refl, ap, sym, ◌∙◌, true, false, none, some, List, [], ◌∷◌, ◌++◌,
  length-append, ==_refl, Bool-cases, inl, inr, ok, All, All-append, All-map, arith,
}
use saurus.HashMap.Update.{Update, changed, leaf_node_set, collision_node_set}
use saurus.HashMap.Trie.{IsCollision, KeysDistinct, size}
use saurus.HashMap.Written.{EqualityLaws, Puts, leaf_hit, leaf_miss, leaf_unmatched}
use saurus.HashMap.Collisions.{
  first_match, index-first_match, collision_node_find-first_match, first_match-append_hit,
  first_match-append_miss, first_match_congr, key_congr, key_congr_right, Replaced, store-Replaced,
}
use saurus.HashMap.{Equality, Leaf, leaf_node, collision_node, get_hash, find, leaf_matches}

module _ {ℓ} {K V : Type ℓ} (eq : Equality K V) (laws : EqualityLaws eq) (l : ℕ) where
  -- A search in colliding leaves.
  pub find-collision :
      (hash : ℕ) (leaves : List (Leaf K V)) (h : ℕ) (q : K)
      → find eq (collision_node hash leaves) h q ≡ ok (first_match eq leaves h q)
  unfolding find
  find-collision hash leaves h q = collision_node_find-first_match eq leaves h q

  -- The new leaf replaces one with its key, or its value was there.
  same_key-Puts :
      (old leaf : Leaf K V)
      → leaf.hash < 2 ^ 32
      → leaf.hash ≡ old.hash
      → eq.key_eq leaf.key old.key ≡ true
      → Puts eq l (leaf_node old) leaf (leaf_node_set eq old leaf)
  unfolding leaf_node_set find get_hash size
  same_key-Puts old leaf lt e k = elim (Bool-cases (eq.val_eq leaf.val old.val)) [
    | inl v ↦
        rw (k, v)
          (record {
            trie = omega (arith, lt);
            agree = ap (λ t. t % 32 ^ l) (sym e);
            hit = λ q c.
                (old, rw e (ap ok (leaf_hit eq old q (laws.key_trans q leaf.key old.key c k))), v);
            miss = λ h q ne. refl;
            counts = omega arith;
            fresh = λ c. absurd (cc);
            present = λ c. (old, rw e (ap ok (leaf_hit eq old leaf.key k)));
          })
    | inr v ↦
        rw (k, v)
          (record {
            trie = lt;
            agree = refl;
            hit = λ q c. (leaf, ap ok (leaf_hit eq leaf q c), laws.val_refl leaf.val);
            miss = λ h q ne. ap ok (
                leaf_miss eq leaf h q ne
                ∙ sym (
                    leaf_miss eq old h q
                      (λ t. ne (t.0 ∙ sym e, key_congr_right eq laws q leaf.key old.key k ∙ t.1))));
            counts = omega arith;
            fresh = λ c. absurd (cc);
            present = λ c. (old, rw e (ap ok (leaf_hit eq old leaf.key k)));
          })
  ]

  -- The two leaves collide.
  other_key-Puts :
      (old leaf : Leaf K V)
      → leaf.hash < 2 ^ 32
      → leaf.hash ≡ old.hash
      → eq.key_eq leaf.key old.key ≡ false
      → Puts eq l (leaf_node old) leaf (leaf_node_set eq old leaf)
  unfolding leaf_node_set get_hash size find
  other_key-Puts old leaf lt e k = rw k (record {
    trie = (
      lt,
      omega arith,
      (sym e, (refl, tt)),
      ((laws.key_symm old.key leaf.key ∙ k, tt), (tt, tt)),
    );
    agree = refl;
    hit = λ q c. (
      leaf,
      find-collision leaf.hash (old ∷ leaf ∷ []) leaf.hash q
          ∙ rw (e, ==_refl old.hash, key_congr eq laws q leaf.key old.key c, k, c),
      laws.val_refl leaf.val,
    );
    miss = λ h q ne.
        find-collision leaf.hash (old ∷ leaf ∷ []) h q ∙ rw (leaf_unmatched eq leaf h q ne);
    counts = omega arith;
    fresh = λ c. ap ok (rw (e, ==_refl old.hash, k));
    present = λ c. absurd (cc);
  })

  -- A key that no colliding leaf has stays distinct from theirs.
  append-KeysDistinct :
      (leaf : Leaf K V) (leaves : List (Leaf K V))
      → All (λ x. x.hash ≡ leaf.hash) leaves
      → first_match eq leaves leaf.hash leaf.key ≡ none
      → KeysDistinct eq leaves
      → KeysDistinct eq (leaves ++ leaf ∷ [])
  append-KeysDistinct leaf [] a e d = (tt, tt)
  append-KeysDistinct leaf (x ∷ leaves) a e d =
      elim (Bool-cases (leaf_matches eq x leaf.hash leaf.key)) [
        | inl k ↦ let e' : some x ≡ none = (rw k at e) in absurd (cc)
        | inr k ↦
            let k' : eq.key_eq leaf.key x.key ≡ false = (rw (a.0, ==_refl leaf.hash) at k) in
            (
              All-append _ leaves (leaf ∷ []) d.0 (laws.key_symm x.key leaf.key ∙ k', tt),
              append-KeysDistinct leaf leaves a.1 (rw k at e) d.1,
            )
      ]

  module _ (hash : ℕ) (leaves : List (Leaf K V)) (leaf : Leaf K V) (t : IsCollision eq hash leaves)
      (same : leaf.hash ≡ hash) where
    same_hashes : All (λ x. x.hash ≡ leaf.hash) leaves
    same_hashes = All-map _ _ (λ x e. e ∙ sym same) leaves t.2

    -- One of the leaves has the key.
    found-Puts :
        (new : List (Leaf K V)) (was : Leaf K V)
        → first_match eq leaves leaf.hash leaf.key ≡ some was
        → Replaced eq laws leaves new leaf
        → Puts eq l (collision_node hash leaves) leaf (changed (collision_node leaf.hash new) false)
    unfolding get_hash size
    found-Puts new was e r = record {
      trie = (rw same t.0, rw r.width t.1, r.hashes, r.distinct);
      agree = refl;
      hit = λ q c. (
        leaf,
        find-collision leaf.hash new leaf.hash q ∙ ap ok (r.hit q c),
        laws.val_refl leaf.val,
      );
      miss = λ h q ne.
          find-collision leaf.hash new h q
          ∙ ap ok (r.miss h q ne)
          ∙ sym (find-collision hash leaves h q);
      counts = omega (arith, r.width);
      fresh = λ c. absurd (cc);
      present = λ c. (was, find-collision hash leaves leaf.hash leaf.key ∙ ap ok e);
    }

    -- None of them has it.
    appended-Puts :
        first_match eq leaves leaf.hash leaf.key ≡ none
        → Puts eq l
            (collision_node hash leaves)
            leaf
            (changed (collision_node leaf.hash (leaves ++ leaf ∷ [])) true)
    unfolding get_hash size
    appended-Puts e = record {
      trie = (
        rw same t.0,
        omega (arith, length-append leaves (leaf ∷ []), t.1),
        All-append _ leaves (leaf ∷ []) same_hashes (refl, tt),
        append-KeysDistinct leaf leaves same_hashes e t.3,
      );
      agree = refl;
      hit = λ q c. (
        leaf,
        find-collision leaf.hash (leaves ++ leaf ∷ []) leaf.hash q
            ∙ ap ok (
                first_match-append_hit eq leaves leaf leaf.hash q
                  (first_match_congr eq laws leaves leaf.hash q leaf.key c ∙ e)
                ∙ leaf_hit eq leaf q c),
        laws.val_refl leaf.val,
      );
      miss = λ h q ne.
          find-collision leaf.hash (leaves ++ leaf ∷ []) h q
          ∙ ap ok (first_match-append_miss eq leaves leaf h q ne)
          ∙ sym (find-collision hash leaves h q);
      counts = length-append leaves (leaf ∷ []);
      fresh = λ c. find-collision hash leaves leaf.hash leaf.key ∙ ap ok e;
      present = λ c. absurd (cc);
    }

    pub collision_node_set-Puts :
        (u : Update K V) × (collision_node_set eq leaves leaf ≡ ok u)
        × Puts eq l (collision_node hash leaves) leaf u
    unfolding collision_node_set
    collision_node_set-Puts = elim (index-first_match eq leaves leaf.hash leaf.key) [
      | inl (a, b) ↦ (
        changed (collision_node leaf.hash (leaves ++ leaf ∷ [])) true,
        rw (collision_node_set, a),
        appended-Puts b,
      )
      | inr (i, was, a, b, c) ↦
          let (new, run, r) = store-Replaced eq laws leaves leaf i same_hashes t.3 a in
          (
            changed (collision_node leaf.hash new) false,
            rw (collision_node_set, a, run),
            found-Puts new was b r,
          )
    ]

  pub leaf_node_set-Puts :
      (old leaf : Leaf K V)
      → leaf.hash < 2 ^ 32
      → leaf.hash ≡ old.hash
      → Puts eq l (leaf_node old) leaf (leaf_node_set eq old leaf)
  leaf_node_set-Puts old leaf lt e = elim (Bool-cases (eq.key_eq leaf.key old.key)) [
    | inl k ↦ same_key-Puts old leaf lt e k
    | inr k ↦ other_key-Puts old leaf lt e k
  ]
