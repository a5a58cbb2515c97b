-- ===== src/HashMap/Collisions.antt =====
-- Leaves with the same hash in the hash map of src/vm/seq.c: the search, and a leaf replaced or added.
use saurus.Base.{
  ℕ, suc, ◌≡◌, ◌⊎◌, refl, ap, sym, ◌∙◌, true, false, Option, none, some, List, [], ◌∷◌, ◌++◌,
  length, ==_refl, Bool-cases, inl, inr, if◌then◌else◌, ok, fetch, store, All, All-map, arith,
}
use saurus.HashMap.Trie.{KeysDistinct}
use saurus.HashMap.Written.{EqualityLaws, Hits, leaf_miss, leaf_unmatched}
use saurus.HashMap.{
  Equality, Leaf, leaf_matches, leaf_node_find, collision_node_find_index, collision_node_find,
}

-- An index in the rest of an array.
abbrev pub behind : Option ℕ → Option ℕ
behind o = elim o [ none ↦ none | some i ↦ some (suc i) ]

pub behind-some : (o : Option ℕ) (i : ℕ) → behind o ≡ some i → (j : ℕ) × (o ≡ some j) × (i ≡ suc j)
behind-some none i e = absurd (cc)
behind-some (some j) i e = (j, refl, cc)

module _ {ℓ} {K V : Type ℓ} (eq : Equality K V) where
  -- The first leaf that matches.
  abbrev pub first_match : List (Leaf K V) → ℕ → K → Option (Leaf K V)
  first_match [] h q = none
  first_match (leaf ∷ leaves) h q =
      if leaf_matches eq leaf h q then some leaf else first_match leaves h q

  -- `collision_node_find_index` finds the position of that leaf.
  pub index-first_match :
      (leaves : List (Leaf K V)) (h : ℕ) (q : K)
      → ((collision_node_find_index eq leaves h q ≡ none) × (first_match leaves h q ≡ none))
        ⊎ ((i : ℕ) × (leaf : Leaf K V) × (collision_node_find_index eq leaves h q ≡ some i)
            × (first_match leaves h q ≡ some leaf)
            × (fetch leaves i ≡ ok leaf))
  unfolding collision_node_find_index
  index-first_match [] h q = inl (refl, refl)
  index-first_match (leaf ∷ leaves) h q = elim (Bool-cases (leaf_matches eq leaf h q)) [
    | inl e ↦ inr (0, leaf, rw e, rw e, refl)
    | inr e ↦ elim (index-first_match leaves h q) [
      | inl (a, b) ↦ inl (rw (e, a), rw (e, b))
      | inr (i, l, a, b, c) ↦ inr (suc i, l, rw (e, a), rw (e, b), c)
    ]
  ]

  pub collision_node_find-first_match :
      (leaves : List (Leaf K V)) (h : ℕ) (q : K)
      → collision_node_find eq leaves h q ≡ ok (first_match leaves h q)
  unfolding collision_node_find
  collision_node_find-first_match leaves h q = elim (index-first_match leaves h q) [
    | inl (a, b) ↦ rw (a, collision_node_find) (ap ok (sym b))
    | inr (i, l, a, b, c) ↦ rw (a, collision_node_find) (rw (b, c))
  ]

  pub first_match-append_hit :
      (leaves : List (Leaf K V)) (leaf : Leaf K V) (h : ℕ) (q : K)
      → first_match leaves h q ≡ none
      → first_match (leaves ++ leaf ∷ []) h q ≡ leaf_node_find eq leaf h q
  first_match-append_hit [] leaf h q e = refl
  first_match-append_hit (l ∷ leaves) leaf h q e = elim (Bool-cases (leaf_matches eq l h q)) [
    | inl k ↦ let e' : some l ≡ none = (rw k at e) in absurd (cc)
    | inr k ↦ rw k (first_match-append_hit leaves leaf h q (rw k at e))
  ]

  pub first_match-append_miss :
      (leaves : List (Leaf K V)) (leaf : Leaf K V) (h : ℕ) (q : K)
      → ¬ Hits eq leaf h q
      → first_match (leaves ++ leaf ∷ []) h q ≡ first_match leaves h q
  first_match-append_miss [] leaf h q ne = leaf_miss eq leaf h q ne
  first_match-append_miss (l ∷ leaves) leaf h q ne =
      ap (λ r. if leaf_matches eq l h q then some l else r)
        (first_match-append_miss leaves leaf h q ne)

module _ {ℓ} {K V : Type ℓ} (eq : Equality K V) (laws : EqualityLaws eq) where
  pub key_congr : (a b c : K) → eq.key_eq a b ≡ true → eq.key_eq a c ≡ eq.key_eq b c
  key_congr a b c e = ground (arith, laws.key_symm a b, laws.key_trans a b c, laws.key_trans b a c)

  pub key_congr_right : (a b c : K) → eq.key_eq b c ≡ true → eq.key_eq a b ≡ eq.key_eq a c
  key_congr_right a b c e = laws.key_symm a b ∙ key_congr b c a e ∙ laws.key_symm c a

  -- The search depends on the key up to `value_eq`.
  pub first_match_congr :
      (leaves : List (Leaf K V)) (h : ℕ) (q k : K)
      → eq.key_eq q k ≡ true
      → first_match eq leaves h q ≡ first_match eq leaves h k
  first_match_congr [] h q k e = refl
  first_match_congr (l ∷ leaves) h q k e =
      rw (key_congr q k l.key e, first_match_congr leaves h q k e)

  -- What replacing the leaf that matches `leaf`'s key does.
  pub record Replaced (leaves new : List (Leaf K V)) (leaf : Leaf K V) : Type ℓ where
    pub width : length new ≡ length leaves
    pub hashes : All (λ l. l.hash ≡ leaf.hash) new
    pub distinct : KeysDistinct eq new
    pub hit : (q : K) → eq.key_eq q leaf.key ≡ true → first_match eq new leaf.hash q ≡ some leaf
    pub miss :
        (h : ℕ) (q : K) → ¬ Hits eq leaf h q → first_match eq new h q ≡ first_match eq leaves h q
    pub unlike :
        (k : K)
        → eq.key_eq k leaf.key ≡ false
        → All (λ l. eq.key_eq k l.key ≡ false) leaves
        → All (λ l. eq.key_eq k l.key ≡ false) new

  module _ (l leaf : Leaf K V) (leaves : List (Leaf K V)) (same_hash : l.hash ≡ leaf.hash)
      (a : All (λ x. x.hash ≡ leaf.hash) leaves) (d : KeysDistinct eq (l ∷ leaves)) where
    matches-key : (k : K) → leaf_matches eq l leaf.hash k ≡ eq.key_eq k l.key
    matches-key k = rw (same_hash, ==_refl leaf.hash)

    -- The first leaf matches.
    head-Replaced : eq.key_eq leaf.key l.key ≡ true → Replaced (l ∷ leaves) (leaf ∷ leaves) leaf
    head-Replaced k = record {
      width = refl;
      hashes = (refl, a);
      distinct = (All-map _ _ (λ x e. key_congr leaf.key l.key x.key k ∙ e) leaves d.0, d.1);
      hit = λ q e. rw (==_refl leaf.hash, e);
      miss = λ h q ne.
          let old : ¬ Hits eq l h q =
            λ t. ne (t.0 ∙ same_hash, key_congr_right q leaf.key l.key k ∙ t.1) in
          let e1 = leaf_unmatched eq leaf h q ne in
          let e2 = leaf_unmatched eq l h q old in rw (e1, e2);
      unlike = λ c e b. (e, b.1);
    }

    -- A later leaf matches.
    tail-Replaced :
        {new : List (Leaf K V)}
        → eq.key_eq leaf.key l.key ≡ false
        → Replaced leaves new leaf
        → Replaced (l ∷ leaves) (l ∷ new) leaf
    tail-Replaced k r = record {
      width = ap suc r.width;
      hashes = (same_hash, r.hashes);
      distinct = (r.unlike l.key (laws.key_symm l.key leaf.key ∙ k) d.0, r.distinct);
      hit = λ q e. rw (matches-key q, key_congr q leaf.key l.key e, k) (r.hit q e);
      miss = λ h q ne. ap (λ x. if leaf_matches eq l h q then some l else x) (r.miss h q ne);
      unlike = λ c e b. (b.0, r.unlike c e b.1);
    }

  pub store-Replaced :
      (leaves : List (Leaf K V)) (leaf : Leaf K V) (i : ℕ)
      → All (λ l. l.hash ≡ leaf.hash) leaves
      → KeysDistinct eq leaves
      → collision_node_find_index eq leaves leaf.hash leaf.key ≡ some i
      → (new : List (Leaf K V)) × (store leaves i leaf ≡ ok new) × Replaced leaves new leaf
  unfolding collision_node_find_index
  store-Replaced [] leaf i a d e = absurd (cc)
  store-Replaced (l ∷ leaves) leaf i a d e = elim (Bool-cases (eq.key_eq leaf.key l.key)) [
    | inl k ↦
        let e' : some 0 ≡ some i = (rw (matches-key l leaf leaves a.0 a.1 d leaf.key, k) at e) in
        let i_eq : 0 ≡ i = cc in
        rw (← i_eq) (leaf ∷ leaves, refl, head-Replaced l leaf leaves a.0 a.1 d k)
    | inr k ↦
        let e' : behind (collision_node_find_index eq leaves leaf.hash leaf.key) ≡ some i =
          (rw (matches-key l leaf leaves a.0 a.1 d leaf.key, k) at e) in
        let (j, f, i_eq) = behind-some _ i e' in
        let (new, run, r) = store-Replaced leaves leaf j a.1 d.1 f in
        (l ∷ new, rw (i_eq, run), tail-Replaced l leaf leaves a.0 a.1 d k r)
  ]
