-- ===== src/HashMap/Written.antt =====
-- What a call of `set` in the hash map of src/vm/seq.c is to achieve, and what is assumed of
-- `value_eq`.
use saurus.Base.{
  ℕ, suc, ◌+◌, ◌*◌, ◌≡◌, ◌≢◌, refl, ap, sym, ◌∙◌, Bool, true, false, none, some, ==_refl, ==-ne,
  Bool-cases, inl, inr, ok, All, List, arith,
}
use saurus.HashMap.Bits.{digit}
use saurus.HashMap.Digits.{Agree}
use saurus.HashMap.Update.{Update, kept, changed}
use saurus.HashMap.Trie.{IsTrie, size, sizes, seek, seek-absent}
use saurus.HashMap.Arrays.{Copied}
use saurus.HashMap.Create.{Built}
use saurus.HashMap.{
  Equality, Leaf, MapNode, MapNodes, leaf_node, get_hash, find, leaf_matches, leaf_node_find,
}
use native.Mathlib.Decide.{ℕ_discrete}

-- `value_eq` is an equivalence on keys, and a value is equal to itself.
pub record EqualityLaws {ℓ} {K V : Type ℓ} (eq : Equality K V) : Type ℓ where
  pub key_refl : (a : K) → eq.key_eq a a ≡ true
  pub key_symm : (a b : K) → eq.key_eq a b ≡ eq.key_eq b a
  pub key_trans : (a b c : K) → eq.key_eq a b ≡ true → eq.key_eq b c ≡ true → eq.key_eq a c ≡ true
  pub val_refl : (v : V) → eq.val_eq v v ≡ true

abbrev pub to_nat : Bool → ℕ
to_nat true = 1
to_nat false = 0

module _ {ℓ} {K V : Type ℓ} (eq : Equality K V) where
  -- The node that stands for `n` after the call.
  abbrev pub result : MapNode K V → Update K V → MapNode K V
  result n u = elim u.node [ none ↦ n | some c ↦ c ]

  -- The search is for `leaf`'s hash and key.
  abbrev pub Hits : Leaf K V → ℕ → K → Type 0
  Hits leaf h q = (h ≡ leaf.hash) × (eq.key_eq q leaf.key ≡ true)

  -- After `set` with `leaf` on `n` at level `l`: a search for its key finds an equal value, every
  -- other search finds what it found before, and `added` tells whether the key is new.
  pub record Puts (l : ℕ) (n : MapNode K V) (leaf : Leaf K V) (u : Update K V) : Type ℓ where
    pub trie : IsTrie eq l (result n u)
    pub agree : Agree l (get_hash (result n u)) leaf.hash
    pub hit :
        (q : K)
        → eq.key_eq q leaf.key ≡ true
        → (lf : Leaf K V) × (find eq (result n u) leaf.hash q ≡ ok (some lf))
          × (eq.val_eq leaf.val lf.val ≡ true)
    pub miss : (h : ℕ) (q : K) → ¬ Hits leaf h q → find eq (result n u) h q ≡ find eq n h q
    pub counts : size (result n u) ≡ size n + to_nat u.added
    pub fresh : u.added ≡ true → find eq n leaf.hash leaf.key ≡ ok none
    pub present : u.added ≡ false → (lf : Leaf K V) × (find eq n leaf.hash leaf.key ≡ ok (some lf))

  pub leaf_hit :
      (leaf : Leaf K V) (q : K)
      → eq.key_eq q leaf.key ≡ true
      → leaf_node_find eq leaf leaf.hash q ≡ some leaf
  leaf_hit leaf q e = rw (==_refl leaf.hash, e)

  pub leaf_unmatched :
      (leaf : Leaf K V) (h : ℕ) (q : K) → ¬ Hits leaf h q → leaf_matches eq leaf h q ≡ false
  leaf_unmatched leaf h q ne = elim (ℕ_discrete h leaf.hash) [
    | no p ↦ rw (==-ne h leaf.hash p)
    | yes p ↦ elim (Bool-cases (eq.key_eq q leaf.key)) [
      | inl e ↦ absurd (ne (p, e))
      | inr e ↦ rw (p, ==_refl leaf.hash, e)
    ]
  ]

  pub leaf_miss :
      (leaf : Leaf K V) (h : ℕ) (q : K) → ¬ Hits leaf h q → leaf_node_find eq leaf h q ≡ none
  leaf_miss leaf h q ne = rw (leaf_unmatched leaf h q ne)

module _ {ℓ} {K V : Type ℓ} (eq : Equality K V) (laws : EqualityLaws eq) (l r : ℕ) (ps : List ℕ)
    (ns : MapNodes K V) (n : MapNode K V) (old : Built eq l r ps ns n) (leaf : Leaf K V)
    (agrees : Agree l r leaf.hash) where
  -- The digit of the new leaf at this level.
  abbrev pub m : ℕ
  m = digit leaf.hash (5 * l)

  -- A child was replaced.
  pub stored-Puts :
      (c c' : MapNode K V) (added : Bool) (ns' : MapNodes K V) (n' : MapNode K V)
      → ((h : ℕ) (q : K) → seek eq ps ns m h q ≡ find eq c h q)
      → Puts eq (suc l) c leaf (changed c' added)
      → Copied eq l r ps ps ns ns' m (find eq c')
      → sizes ns' + size c ≡ sizes ns + size c'
      → Built eq l r ps ns' n'
      → Puts eq l n leaf (changed n' added)
  stored-Puts c c' added ns' n' found p w s new = record {
    trie = new.trie;
    agree = sym new.agree ∙ agrees;
    hit = λ q e.
        let (lf, run, v) = p.hit q e in (lf, new.finds leaf.hash q ∙ w.here leaf.hash q ∙ run, v);
    miss = λ h q ne. elim (ℕ_discrete (digit h (5 * l)) m) [
      | yes e ↦
          new.finds h q
          ∙ ap (λ d. seek eq ps ns' d h q) e
          ∙ w.here h q
          ∙ p.miss h q ne
          ∙ sym (found h q)
          ∙ ap (λ d. seek eq ps ns d h q) (sym e)
          ∙ sym (old.finds h q)
      | no e ↦ new.finds h q ∙ w.there (digit h (5 * l)) h q e ∙ sym (old.finds h q)
    ];
    counts = omega (arith, new.counts, old.counts, p.counts, s);
    fresh = λ e. old.finds leaf.hash leaf.key ∙ found leaf.hash leaf.key ∙ p.fresh e;
    present = λ e.
        let (lf, run) = p.present e in
        (lf, old.finds leaf.hash leaf.key ∙ found leaf.hash leaf.key ∙ run);
  }

  -- The child returned itself.
  pub kept-Puts :
      (c : MapNode K V) (added : Bool)
      → ((h : ℕ) (q : K) → seek eq ps ns m h q ≡ find eq c h q)
      → Puts eq (suc l) c leaf (kept added)
      → Puts eq l n leaf (kept added)
  kept-Puts c added found p = record {
    trie = old.trie;
    agree = sym old.agree ∙ agrees;
    hit = λ q e.
        let (lf, run, v) = p.hit q e in (lf, old.finds leaf.hash q ∙ found leaf.hash q ∙ run, v);
    miss = λ h q ne. refl;
    counts = omega (arith, p.counts);
    fresh = λ e. old.finds leaf.hash leaf.key ∙ found leaf.hash leaf.key ∙ p.fresh e;
    present = λ e.
        let (lf, run) = p.present e in
        (lf, old.finds leaf.hash leaf.key ∙ found leaf.hash leaf.key ∙ run);
  }

  -- The leaf was inserted at a digit that had no child.
  pub inserted-Puts :
      (ps' : List ℕ) (ns' : MapNodes K V) (n' : MapNode K V)
      → All (λ p. m ≢ p) ps
      → Copied eq l r ps ps' ns ns' m (find eq (leaf_node leaf))
      → sizes ns' ≡ sizes ns + 1
      → Built eq l r ps' ns' n'
      → Puts eq l n leaf (changed n' true)
  unfolding find
  inserted-Puts ps' ns' n' absent w s new = record {
    trie = new.trie;
    agree = sym new.agree ∙ agrees;
    hit = λ q e. (
      leaf,
      new.finds leaf.hash q ∙ w.here leaf.hash q ∙ ap ok (leaf_hit eq leaf q e),
      laws.val_refl leaf.val,
    );
    miss = λ h q ne. elim (ℕ_discrete (digit h (5 * l)) m) [
      | yes e ↦
          new.finds h q
          ∙ ap (λ d. seek eq ps' ns' d h q) e
          ∙ w.here h q
          ∙ ap ok (leaf_miss eq leaf h q ne)
          ∙ sym (seek-absent eq ps ns m h q absent)
          ∙ ap (λ d. seek eq ps ns d h q) (sym e)
          ∙ sym (old.finds h q)
      | no e ↦ new.finds h q ∙ w.there (digit h (5 * l)) h q e ∙ sym (old.finds h q)
    ];
    counts = omega (arith, new.counts, old.counts, s);
    fresh = λ e. old.finds leaf.hash leaf.key ∙ seek-absent eq ps ns m leaf.hash leaf.key absent;
    present = λ e. absurd (cc);
  }
