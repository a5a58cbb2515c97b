-- ===== src/HashMap/Arrays.antt =====
-- Reads and copies of an array of children in the hash map of src/vm/seq.c: they keep the array in
-- step with its digits, and change the search at one digit only.
use saurus.Base.{
  ℕ, zero, suc, ◌+◌, ◌*◌, ◌≤◌, ◌≡◌, ◌≢◌, refl, ap, sym, subst, ◌∙◌, Option, none, List, [], ◌∷◌,
  length, All, ◌==◌, ==_refl, ==-ne, if◌then◌else◌, Run, ok, fetch, arith,
}
use saurus.HashMap.Bits.{digit}
use saurus.HashMap.Digits.{Agree}
use saurus.HashMap.Positions.{Distinct, insert_at, remove_at}
use saurus.HashMap.Trie.{IsTrie, IsTries, size, sizes, seek, seek-absent, fetch-ne}
use saurus.HashMap.{
  Equality, Leaf, MapNode, MapNodes, nil, cons, fetch_node, store_node, insert_node, remove_node,
  get_hash, find,
}

module _ {ℓ} {K V : Type ℓ} (eq : Equality K V) (l r : ℕ) where
  -- A child that may stand at digit `m`.
  abbrev pub Fits : ℕ → MapNode K V → Type 0
  Fits m c = Agree l r (get_hash c) × (digit (get_hash c) (5 * l) ≡ m) × IsTrie eq (suc l) c

  pub record Child (ps : List ℕ) (ns : MapNodes K V) (i m : ℕ) : Type ℓ where
    pub child : MapNode K V
    pub fetched : fetch_node ns i ≡ ok child
    pub fits : Fits m child
    pub found : (h : ℕ) (q : K) → seek eq ps ns m h q ≡ find eq child h q

  pub fetch_node-Child :
      (ps : List ℕ) (ns : MapNodes K V) (i m : ℕ)
      → IsTries eq l r ps ns
      → Distinct ps
      → fetch ps i ≡ ok m
      → Child ps ns i m
  unfolding fetch_node seek
  fetch_node-Child [] ns i m t d e = absurd (cc)
  fetch_node-Child (p ∷ ps) nil i m t d e = absurd t
  fetch_node-Child (p ∷ ps) (cons n ns) zero m t d e =
      let p_eq : p ≡ m = cc in
      record {
        child = n;
        fetched = refl;
        fits = (t.0, t.1 ∙ p_eq, t.2);
        found = λ h q. rw (p_eq, ==_refl m);
      }
  fetch_node-Child (p ∷ ps) (cons n ns) (suc i) m t d e =
      let c = fetch_node-Child ps ns i m t.3 d.1 e in
      record {
        child = c.child;
        fetched = c.fetched;
        fits = c.fits;
        found = λ h q. rw (==-ne m p (fetch-ne eq p m ps i d.0 e)) (c.found h q);
      }

  -- `ns'` stands at `ps'`; the search in it is that in `ns` but for digit `m`.
  pub record Copied (ps ps' : List ℕ) (ns ns' : MapNodes K V) (m : ℕ)
      (at : ℕ → K → Run (Option (Leaf K V))) : Type ℓ where
    pub tries : IsTries eq l r ps' ns'
    pub here : (h : ℕ) (q : K) → seek eq ps' ns' m h q ≡ at h q
    pub there : (m' h : ℕ) (q : K) → m' ≢ m → seek eq ps' ns' m' h q ≡ seek eq ps ns m' h q

  pub store_node-Copied :
      (ps : List ℕ) (ns : MapNodes K V) (i m : ℕ) (c c' : MapNode K V)
      → IsTries eq l r ps ns
      → Distinct ps
      → fetch ps i ≡ ok m
      → fetch_node ns i ≡ ok c
      → Fits m c'
      → (ns' : MapNodes K V) × (store_node ns i c' ≡ ok ns')
        × Copied ps ps ns ns' m (find eq c')
        × (sizes ns' + size c ≡ sizes ns + size c')
  unfolding fetch_node store_node seek size
  store_node-Copied [] ns i m c c' t d e f k = absurd (cc)
  store_node-Copied (p ∷ ps) nil i m c c' t d e f k = absurd t
  store_node-Copied (p ∷ ps) (cons n ns) zero m c c' t d e f k =
      let p_eq : p ≡ m = cc in
      let n_eq : n ≡ c = cc in
      (
        cons c' ns,
        refl,
        record {
          tries = (k.0, k.1 ∙ sym p_eq, k.2, t.3);
          here = λ h q. rw (p_eq, ==_refl m);
          there = λ m' h q ne. rw (p_eq, ==-ne m' m ne);
        },
        omega (arith, ap size n_eq),
      )
  store_node-Copied (p ∷ ps) (cons n ns) (suc i) m c c' t d e f k =
      let (ns', run, w, s) = store_node-Copied ps ns i m c c' t.3 d.1 e f k in
      (
        cons n ns',
        rw run,
        record {
          tries = (t.0, t.1, t.2, w.tries);
          here = λ h q. rw (==-ne m p (fetch-ne eq p m ps i d.0 e)) (w.here h q);
          there = λ m' h q ne. ap (λ x. if m' == p then find eq n h q else x) (w.there m' h q ne);
        },
        omega (arith, s),
      )

  pub insert_node-Copied :
      (ps : List ℕ) (ns : MapNodes K V) (i m : ℕ) (c : MapNode K V)
      → IsTries eq l r ps ns
      → All (λ p. m ≢ p) ps
      → i ≤ length ps
      → Fits m c
      → (ns' : MapNodes K V) × (insert_node ns i c ≡ ok ns')
        × Copied ps (insert_at ps i m) ns ns' m (find eq c)
        × (sizes ns' ≡ sizes ns + size c)
  unfolding insert_node seek size
  insert_node-Copied ps ns zero m c t a le k = (
    cons c ns,
    refl,
    record {
      tries = (k.0, k.1, k.2, t);
      here = λ h q. rw (==_refl m);
      there = λ m' h q ne. rw (==-ne m' m ne);
    },
    omega arith,
  )
  insert_node-Copied [] ns (suc i) m c t a le k = absurd (omega arith)
  insert_node-Copied (p ∷ ps) nil (suc i) m c t a le k = absurd t
  insert_node-Copied (p ∷ ps) (cons n ns) (suc i) m c t a le k =
      let (ns', run, w, s) = insert_node-Copied ps ns i m c t.3 a.1 (omega arith) k in
      (
        cons n ns',
        rw run,
        record {
          tries = (t.0, t.1, t.2, w.tries);
          here = λ h q. rw (==-ne m p a.0) (w.here h q);
          there = λ m' h q ne. ap (λ x. if m' == p then find eq n h q else x) (w.there m' h q ne);
        },
        omega (arith, s),
      )

  pub remove_node-Copied :
      (ps : List ℕ) (ns : MapNodes K V) (i m : ℕ) (c : MapNode K V)
      → IsTries eq l r ps ns
      → Distinct ps
      → fetch ps i ≡ ok m
      → fetch_node ns i ≡ ok c
      → (ns' : MapNodes K V) × (remove_node ns i ≡ ok ns')
        × Copied ps (remove_at ps i) ns ns' m (λ h q. ok none)
        × (sizes ns' + size c ≡ sizes ns)
  unfolding fetch_node remove_node seek size
  remove_node-Copied [] ns i m c t d e f = absurd (cc)
  remove_node-Copied (p ∷ ps) nil i m c t d e f = absurd t
  remove_node-Copied (p ∷ ps) (cons n ns) zero m c t d e f =
      let p_eq : p ≡ m = cc in
      let n_eq : n ≡ c = cc in
      (
        ns,
        refl,
        record {
          tries = t.3;
          here = λ h q. seek-absent eq ps ns m h q (subst (λ x. All (λ y. x ≢ y) ps) p_eq d.0);
          there = λ m' h q ne. rw (p_eq, ==-ne m' m ne);
        },
        omega (arith, ap size n_eq),
      )
  remove_node-Copied (p ∷ ps) (cons n ns) (suc i) m c t d e f =
      let (ns', run, w, s) = remove_node-Copied ps ns i m c t.3 d.1 e f in
      (
        cons n ns',
        rw run,
        record {
          tries = (t.0, t.1, t.2, w.tries);
          here = λ h q. rw (==-ne m p (fetch-ne eq p m ps i d.0 e)) (w.here h q);
          there = λ m' h q ne. ap (λ x. if m' == p then find eq n h q else x) (w.there m' h q ne);
        },
        omega (arith, s),
      )
