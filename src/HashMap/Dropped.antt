-- ===== src/HashMap/Dropped.antt =====
-- Colliding leaves of src/vm/seq.c with one leaf left out.
use saurus.Base.{
  ℕ, zero, suc, ◌+◌, ◌≡◌, refl, ap, sym, ◌∙◌, true, false, none, some, List, [], ◌∷◌, length, ◌==◌,
  ==_refl, ==-ne, Bool-cases, inl, inr, if◌then◌else◌, ok, fetch, All, All-map, arith,
}
use saurus.HashMap.Without.{remove_leaf}
use saurus.HashMap.Trie.{KeysDistinct}
use saurus.HashMap.Written.{EqualityLaws}
use saurus.HashMap.Collisions.{first_match, key_congr, key_congr_right, behind, behind-some}
use saurus.HashMap.Removed.{Targets}
use saurus.HashMap.{Equality, Leaf, leaf_matches, collision_node_find_index}
use native.Mathlib.Decide.{ℕ_discrete}

module _ {ℓ} {K V : Type ℓ} (eq : Equality K V) (laws : EqualityLaws eq) (hash : ℕ) (key : K) where
  -- A leaf that the call is for matches no other search.
  pub unmatched :
      (x : Leaf K V) (h : ℕ) (q : K)
      → x.hash ≡ hash
      → eq.key_eq key x.key ≡ true
      → ¬ Targets eq hash key h q
      → leaf_matches eq x h q ≡ false
  unmatched x h q e k ne = elim (ℕ_discrete h x.hash) [
    | no p ↦ rw (==-ne h x.hash p)
    | yes p ↦ elim (Bool-cases (eq.key_eq q x.key)) [
      | inl c ↦ absurd (ne (p ∙ e, key_congr_right eq laws q key x.key k ∙ c))
      | inr c ↦ rw (p, ==_refl x.hash, c)
    ]
  ]

  pub matched :
      (x : Leaf K V)
      → leaf_matches eq x hash key ≡ true
      → (x.hash ≡ hash) × (eq.key_eq key x.key ≡ true)
  matched x e = elim (ℕ_discrete hash x.hash) [
    | no p ↦ let e' : false ≡ true = (rw (==-ne hash x.hash p) at e) in absurd (cc)
    | yes p ↦ (sym p, (rw (p, ==_refl x.hash) at e))
  ]

  first_match-unlike :
      (leaves : List (Leaf K V)) (h : ℕ) (q : K)
      → All (λ x. eq.key_eq q x.key ≡ false) leaves
      → first_match eq leaves h q ≡ none
  first_match-unlike [] h q a = refl
  first_match-unlike (x ∷ leaves) h q a = elim (Bool-cases (h == x.hash)) [
    | inl e ↦ rw (e, a.0) (first_match-unlike leaves h q a.1)
    | inr e ↦ rw e (first_match-unlike leaves h q a.1)
  ]

  -- What dropping the leaf with the key does.
  pub record Dropped (leaves rest : List (Leaf K V)) : Type ℓ where
    pub width : length rest + 1 ≡ length leaves
    pub hashes : All (λ x. x.hash ≡ hash) rest
    pub distinct : KeysDistinct eq rest
    pub hit : (q : K) → eq.key_eq q key ≡ true → first_match eq rest hash q ≡ none
    pub miss :
        (h : ℕ) (q : K)
        → ¬ Targets eq hash key h q
        → first_match eq rest h q ≡ first_match eq leaves h q
    pub unlike :
        (k : K)
        → All (λ x. eq.key_eq k x.key ≡ false) leaves
        → All (λ x. eq.key_eq k x.key ≡ false) rest

  module _ (x : Leaf K V) (leaves : List (Leaf K V)) (same_hash : x.hash ≡ hash)
      (a : All (λ y. y.hash ≡ hash) leaves) (d : KeysDistinct eq (x ∷ leaves)) where
    matches-key : (k : K) → leaf_matches eq x hash k ≡ eq.key_eq k x.key
    matches-key k = rw (same_hash, ==_refl hash)

    head-Dropped : eq.key_eq key x.key ≡ true → Dropped (x ∷ leaves) leaves
    head-Dropped k = record {
      width = omega arith;
      hashes = a;
      distinct = d.1;
      hit = λ q e. first_match-unlike leaves hash q (
          All-map _ _
            (λ y f. key_congr eq laws q key y.key e ∙ key_congr eq laws key x.key y.key k ∙ f)
            leaves d.0);
      miss = λ h q ne. rw (unmatched x h q same_hash k ne);
      unlike = λ c b. b.1;
    }

    tail-Dropped :
        (rest : List (Leaf K V))
        → eq.key_eq key x.key ≡ false
        → Dropped leaves rest
        → Dropped (x ∷ leaves) (x ∷ rest)
    tail-Dropped rest k r = record {
      width = omega (arith, r.width);
      hashes = (same_hash, r.hashes);
      distinct = (r.unlike x.key d.0, r.distinct);
      hit = λ q e. rw (matches-key q, key_congr eq laws q key x.key e, k) (r.hit q e);
      miss = λ h q ne. ap (λ o. if leaf_matches eq x h q then some x else o) (r.miss h q ne);
      unlike = λ c b. (b.0, r.unlike c b.1);
    }

  pub remove_leaf-Dropped :
      (leaves : List (Leaf K V)) (i : ℕ)
      → All (λ x. x.hash ≡ hash) leaves
      → KeysDistinct eq leaves
      → collision_node_find_index eq leaves hash key ≡ some i
      → Dropped leaves (remove_leaf leaves i)
  unfolding collision_node_find_index
  remove_leaf-Dropped [] i a d e = absurd (cc)
  remove_leaf-Dropped (x ∷ leaves) i a d e = elim (Bool-cases (eq.key_eq key x.key)) [
    | inl k ↦
        let e' : some 0 ≡ some i = (rw (matches-key x leaves a.0 a.1 d key, k) at e) in
        let i_eq : 0 ≡ i = cc in rw (← i_eq) (head-Dropped x leaves a.0 a.1 d k)
    | inr k ↦
        let e' : behind (collision_node_find_index eq leaves hash key) ≡ some i =
          (rw (matches-key x leaves a.0 a.1 d key, k) at e) in
        let (j, f, i_eq) = behind-some _ i e' in
        rw i_eq (
          tail-Dropped x leaves a.0 a.1 d (remove_leaf leaves j) k
            (remove_leaf-Dropped leaves j a.1 d.1 f))
  ]

  -- Of two leaves, the other one is left.
  pub other_leaf :
      (leaves : List (Leaf K V)) (i : ℕ) (x : Leaf K V)
      → length leaves ≡ 2
      → fetch leaves i ≡ ok x
      → (y : Leaf K V) × (fetch leaves (if i == 0 then 1 else 0) ≡ ok y)
        × (remove_leaf leaves i ≡ y ∷ [])
  other_leaf [] i x w e = absurd (omega arith)
  other_leaf (a ∷ []) i x w e = absurd (omega arith)
  other_leaf (a ∷ b ∷ c ∷ leaves) i x w e = absurd (omega arith)
  other_leaf (a ∷ b ∷ []) zero x w e = (b, refl, refl)
  other_leaf (a ∷ b ∷ []) (suc zero) x w e = (a, refl, refl)
  other_leaf (a ∷ b ∷ []) (suc (suc i)) x w e = absurd (cc)
