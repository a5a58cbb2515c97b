-- ===== src/HashMap/Removed.antt =====
-- What a call of `without` in the hash map of src/vm/seq.c is to achieve, and how an inner node does
-- its part if its child does.
use saurus.Base.{
  ℕ, suc, ◌+◌, ◌*◌, ◌≡◌, ◌≢◌, refl, ap, sym, subst, ◌∙◌, true, Option, none, some, Run, ok, List,
  arith,
}
use saurus.HashMap.Bits.{digit}
use saurus.HashMap.Digits.{Agree}
use saurus.HashMap.Without.{Removal, same, null, other}
use saurus.HashMap.Trie.{IsTrie, size, sizes, seek}
use saurus.HashMap.Arrays.{Copied}
use saurus.HashMap.Create.{Built}
use saurus.HashMap.{Equality, Leaf, MapNode, MapNodes, get_hash, find}
use native.Mathlib.Decide.{ℕ_discrete}

module _ {ℓ} {K V : Type ℓ} (eq : Equality K V) where
  -- The search is for the hash and key to remove.
  abbrev pub Targets : ℕ → K → ℕ → K → Type 0
  Targets hash key h q = (h ≡ hash) × (eq.key_eq q key ≡ true)

  -- What is found, and how many leaves there are, after the call on `n`.
  abbrev pub after : MapNode K V → Removal K V → ℕ → K → Run (Option (Leaf K V))
  after n same h q = find eq n h q
  after n null h q = ok none
  after n (other c) h q = find eq c h q

  abbrev pub left : MapNode K V → Removal K V → ℕ
  left n same = size n
  left n null = 0
  left n (other c) = size c

  -- A node that takes `n`'s place at level `l`.
  abbrev pub Follows : ℕ → MapNode K V → Removal K V → Type 0
  Follows l n same = Unit
  Follows l n null = Unit
  Follows l n (other c) = IsTrie eq l c × Agree l (get_hash n) (get_hash c)

  -- A leaf was removed.
  abbrev pub Drops : MapNode K V → ℕ → K → ℕ → Type ℓ
  Drops n hash key rest =
      (lf : Leaf K V) × (find eq n hash key ≡ ok (some lf)) × (rest + 1 ≡ size n)

  abbrev pub Outcome : MapNode K V → ℕ → K → Removal K V → Type ℓ
  Outcome n hash key same = (find eq n hash key ≡ ok none)
  Outcome n hash key null = Drops n hash key 0
  Outcome n hash key (other c) = Drops n hash key (size c)

  pub record Removes (l : ℕ) (n : MapNode K V) (hash : ℕ) (key : K) (r : Removal K V) : Type ℓ where
    pub follows : Follows l n r
    pub hit : (q : K) → eq.key_eq q key ≡ true → after n r hash q ≡ ok none
    pub miss : (h : ℕ) (q : K) → ¬ Targets hash key h q → after n r h q ≡ find eq n h q
    pub outcome : Outcome n hash key r

module _ {ℓ} {K V : Type ℓ} (eq : Equality K V) (l r : ℕ) (ps : List ℕ) (ns : MapNodes K V)
    (n : MapNode K V) (old : Built eq l r ps ns n) (hash : ℕ) (key : K) where
  abbrev at : ℕ
  at = digit hash (5 * l)

  module _ (c : MapNode K V) (found : (h : ℕ) (q : K) → seek eq ps ns at h q ≡ find eq c h q) where
    found-here : (q : K) → find eq n hash q ≡ find eq c hash q
    found-here q = old.finds hash q ∙ found hash q

    pub same-Removes : Removes eq (suc l) c hash key same → Removes eq l n hash key same
    same-Removes p = record {
      follows = tt;
      hit = λ q e. found-here q ∙ p.hit q e;
      miss = λ h q ne. refl;
      outcome = found-here key ∙ p.outcome;
    }

    module _ (rc : Removal K V) (p : Removes eq (suc l) c hash key rc) where
      -- The array without the child, or with another child in its place, in a new node.
      pub swapped-Removes :
          (ps' : List ℕ) (ns' : MapNodes K V) (n' : MapNode K V)
          → Copied eq l r ps ps' ns ns' at (after eq c rc)
          → Built eq l r ps' ns' n'
          → sizes ns' + size c ≡ sizes ns + left eq c rc
          → Drops eq c hash key (left eq c rc)
          → Removes eq l n hash key (other n')
      swapped-Removes ps' ns' n' w new s d =
          let (lf, run, one) = d in
          record {
            follows = (new.trie, sym old.agree ∙ new.agree);
            hit = λ q e. new.finds hash q ∙ w.here hash q ∙ p.hit q e;
            miss = λ h q ne. elim (ℕ_discrete (digit h (5 * l)) at) [
              | yes e ↦
                  new.finds h q
                  ∙ ap (λ d. seek eq ps' ns' d h q) e
                  ∙ w.here h q
                  ∙ p.miss h q ne
                  ∙ sym (found h q)
                  ∙ ap (λ d. seek eq ps ns d h q) (sym e)
                  ∙ sym (old.finds h q)
              | no e ↦ new.finds h q ∙ w.there (digit h (5 * l)) h q e ∙ sym (old.finds h q)
            ];
            outcome = (lf, found-here key ∙ run, omega (arith, s, one, new.counts, old.counts));
          }

      -- The only child is gone.
      pub emptied-Removes :
          ((m : ℕ) → m ≢ at → (h : ℕ) (q : K) → seek eq ps ns m h q ≡ ok none)
          → sizes ns ≡ size c
          → rc ≡ null
          → Removes eq l n hash key null
      emptied-Removes alone s e =
          let p' = subst (Removes eq (suc l) c hash key) e p in
          let (lf, run, one) = p'.outcome in
          record {
            follows = tt;
            hit = λ q k. refl;
            miss = λ h q ne. elim (ℕ_discrete (digit h (5 * l)) at) [
              | yes e ↦
                  p'.miss h q ne
                  ∙ sym (found h q)
                  ∙ ap (λ d. seek eq ps ns d h q) (sym e)
                  ∙ sym (old.finds h q)
              | no e ↦ sym (old.finds h q ∙ alone (digit h (5 * l)) e h q)
            ];
            outcome = (lf, found-here key ∙ run, omega (arith, s, one, old.counts));
          }
