-- ===== src/Vector/Set.antt =====
-- `vector_set` of src/vm/seq.c changes one element of the list that a vector represents.
use saurus.Base.{
  ℕ, zero, suc, ◌+◌, ◌/◌, ◌%◌, ◌^◌, ◌≤◌, ◌<◌, ◌≡◌, refl, ap, ap₂, sym, subst, ◌∙◌, inl, inr, List,
  [], ◌∷◌, ◌++◌, length, length-append, length-set, set, set-append_left, set-append_right, fetch,
  store, store-set, ok, raise, index_out_of_bounds, ◌>>=◌, lt→ltb, le→ltb, le→leb, lt→leb, pos, All,
  All-map, concat_map, All-append, arith,
}
use saurus.Vector.{VectorNode, Vector, sub_index, tailoff, node_set, vector_create, vector_set}
use saurus.Vector.Shape.{flat, EndsWith, IsFull, IsSpine, HasShape, HasShape-tail, Represents}
use saurus.Vector.Chunks.{pow32-pos, div-mod_digit, mod-mod_digit}
use saurus.Vector.Walk.{All-EndsWith, length-flat_full, length-flat_spine_le}
use saurus.Vector.Writes.{concat_map-Written}
use saurus.Vector.Index.{tailoff-length, tail_place, v_cnt}
use native.Mathlib.Decide.{dec_lt}
use native.Mathlib.Nat.{pow-suc, mod-lt, mod-eq_of_lt}

module _ {ℓ} (A : Type ℓ) (x : A) where
  -- The copy of node `n` with `x` at `i`, which keeps `R`.
  abbrev Sets {μ} : (d : ℕ) → (VectorNode A d → Type μ) → VectorNode A d → ℕ → Type (ℓ ⊔ μ)
  Sets d R n i =
      (n' : VectorNode A d) × (node_set d n i x ≡ ok n')
      × (flat d n' ≡ set (flat d n) (i % 32 ^ suc d) x)
      × R n'

  module _ {κ} (d : ℕ) (Q : VectorNode A d → Type κ) (ns : VectorNode A (suc d))
      (e : EndsWith (IsFull A d) Q ns) where
    node_set-ends :
        (i : ℕ)
        → ((c : VectorNode A d) → IsFull A d c → Sets d (IsFull A d) c i)
        → (i % 32 ^ suc d < length (flat d e.last) → Sets d Q e.last i)
        → length (flat d e.last) ≤ 32 ^ suc d
        → i % 32 ^ suc (suc d) < length (flat (suc d) ns)
        → Sets
            (suc d)
            (λ ns'.
              EndsWith (IsFull A d) Q ns'
              × (length {A = VectorNode A d} ns' ≡ length {A = VectorNode A d} ns))
            ns
            i
    unfolding flat node_set sub_index
    node_set-ends i full last small lt =
        let S : ℕ = 32 ^ suc d in
        let S_pos : 0 < S = pow32-pos (suc d) in
        let j : ℕ = i % 32 ^ suc (suc d) in
        let digit : sub_index i (suc d) ≡ j / S =
          sym (div-mod_digit i S S_pos) ∙ ap (λ t. (i % t) / S) (sym (pow-suc 32 (suc d))) in
        let rest : j % S ≡ i % S =
          ap (λ t. i % t % S) (pow-suc 32 (suc d)) ∙ mod-mod_digit i S S_pos in
        let w =
          concat_map-Written (flat d) S (λ c. node_set d c i x) x (i % S) (IsFull A d) Q e.init
            e.last j S_pos rest small
            (All-map (IsFull A d) (λ c. length (flat d c) ≡ S) (length-flat_full A d) e.init
              e.inner)
            e.inner (All-map (IsFull A d) (λ c. Sets d (IsFull A d) c i) full e.init e.inner)
            e.outer last (subst (λ l. j < length (concat_map (flat d) l)) e.parts lt) in
        (
          w.init ++ w.last ∷ [],
          ap₂ (λ l t. fetch l t >>= λ c. node_set d c i x >>= λ c'. store l t c') e.parts digit
              ∙ rw (w.fetched, w.written, w.stored),
          w.contents ∙ ap (λ l. set (concat_map (flat d) l) j x) (sym e.parts),
          (
            record {
              init = w.init;
              last = w.last;
              parts = refl;
              fits = omega (arith, w.width, e.fits);
              inner = w.inner;
              outer = w.outer;
            },
            omega (
              arith,
              w.width,
              ap length e.parts,
              length-append w.init (w.last ∷ []),
              length-append e.init (e.last ∷ []),
            ),
          ),
        )

  node_set-IsFull : (d : ℕ) (n : VectorNode A d) → IsFull A d n → (i : ℕ) → Sets d (IsFull A d) n i
  unfolding flat node_set sub_index
  node_set-IsFull zero n h i = (
    set n (i / 32 ^ 0 % 32) x,
    store-set n (i / 32 ^ 0 % 32) x (omega (arith, h)),
    ap (λ k. set n k x) (omega arith),
    length-set n (i / 32 ^ 0 % 32) x ∙ h,
  )
  node_set-IsFull (suc d) n h i =
      let e = All-EndsWith A (IsFull A d) n (omega (arith, h.0)) (omega (arith, h.0)) h.1 in
      let (n', run, c, (e', len)) =
        node_set-ends d (IsFull A d) n e i (λ c f. node_set-IsFull d c f i)
          (λ _. node_set-IsFull d e.last e.outer i)
          (omega (arith, length-flat_full A d e.last e.outer))
          (rw (length-flat_full A (suc d) n h)
            (mod-lt i {m = 32 ^ suc (suc d)} (pow32-pos (suc (suc d))))) in
      (
        n',
        run,
        c,
        (
          len ∙ h.0,
          subst (All (IsFull A d)) (sym e'.parts)
              (All-append (IsFull A d) e'.init (e'.last ∷ []) e'.inner (e'.outer, tt)),
        ),
      )

  node_set-IsSpine :
      (d : ℕ) (n : VectorNode A (suc d))
      → IsSpine A d n
      → (i : ℕ) → i % 32 ^ suc (suc d) < length (flat (suc d) n)
      → Sets
          (suc d)
          (λ n'. IsSpine A d n' × (length {A = VectorNode A d} n' ≡ length {A = VectorNode A d} n))
          n
          i
  node_set-IsSpine zero n e i lt =
      node_set-ends 0 (IsFull A 0) n e i (λ c f. node_set-IsFull 0 c f i)
        (λ _. node_set-IsFull 0 e.last e.outer i)
        (omega (arith, length-flat_full A 0 e.last e.outer)) lt
  node_set-IsSpine (suc d) n e i lt =
      node_set-ends (suc d) (IsSpine A d) n e i (λ c f. node_set-IsFull (suc d) c f i)
        (λ small.
          let (c', run, c, s) = node_set-IsSpine d e.last e.outer i small in (c', run, c, s.0))
        (length-flat_spine_le A d e.last e.outer) lt

  edge_set :
      (d : ℕ) (root : VectorNode A (suc d))
      → IsSpine A d root
      → (i : ℕ) → i < length (flat (suc d) root)
      → (root' : VectorNode A (suc d)) × (node_set (suc d) root i x ≡ ok root')
        × (flat (suc d) root' ≡ set (flat (suc d) root) i x)
        × IsSpine A d root'
        × (length {A = VectorNode A d} root' ≡ length {A = VectorNode A d} root)
  edge_set d root s i lt =
      let e : i % 32 ^ suc (suc d) ≡ i =
        mod-eq_of_lt (omega (arith, length-flat_spine_le A d root s)) in
      let (r, run, c, (s', len)) = node_set-IsSpine d root s i (rw e lt) in
      (r, run, c ∙ ap (λ k. set (flat (suc d) root) k x) e, s', len)

  root_set :
      (d : ℕ) (root : VectorNode A (suc d)) (tail : List A)
      → HasShape A d root tail
      → (i : ℕ) → i < length (flat (suc d) root)
      → (root' : VectorNode A (suc d)) × (node_set (suc d) root i x ≡ ok root')
        × (flat (suc d) root' ≡ set (flat (suc d) root) i x)
        × HasShape A d root' tail
  unfolding flat
  root_set zero root tail (inl e) i lt =
      absurd (omega (arith, ap (λ r. length (flat {A = A} 1 r)) e))
  root_set zero root tail (inr s) i lt =
      let (r, run, c, s', len) = edge_set 0 root s.0 i lt in (r, run, c, inr (s', s.1))
  root_set (suc d) root tail s i lt =
      let (r, run, c, s', len) = edge_set (suc d) root s.0 i lt in
      (r, run, c, (s', omega (arith, s.1, len), s.2))

module _ {ℓ} {A : Type ℓ} {v : Vector A} {xs : List A} (x : A) (r : Represents v xs) where
  -- Outside the list, at a negative index or past the end, the error is raised.
  pub vector_set-outside :
      (i : ℕ) → length xs ≤ i → vector_set v (pos i) x ≡ raise index_out_of_bounds
  unfolding vector_set
  vector_set-outside i h = rw (le→ltb i v.cnt (omega (arith, r.count)))

  pub vector_set-Represents :
      (i : ℕ)
      → i < length xs
      → (v' : Vector A) × (vector_set v (pos i) x ≡ ok v') × Represents v' (set xs i x)
  unfolding vector_set vector_create
  vector_set-Represents i lt = elim (dec_lt i (tailoff v)) [
    | yes p ↦
        let (root, run, c, s) =
          root_set A x v.depth v.root v.tail r.shape i (omega (arith, tailoff-length r)) in
        (
          vector_create v.cnt v.depth root v.tail,
          rw (lt→ltb i v.cnt (omega (arith, r.count)), lt→leb (tailoff v) i p)
              (ap (λ m. m >>= λ r'. ok (vector_create v.cnt v.depth r' v.tail)) run),
          record {
            count = r.count ∙ sym (length-set xs i x);
            contents =
                ap (λ l. set l i x) r.contents
                ∙ set-append_left (flat (suc v.depth) v.root) v.tail i x
                    (omega (arith, tailoff-length r))
                ∙ ap (λ l. l ++ v.tail) (sym c);
            tail_fits = r.tail_fits;
            shape = s;
          },
        )
    | no p ↦
        let k : ℕ = sub_index i 0 in
        let place = tail_place r i (omega arith) (omega (arith, r.count)) in
        let i_eq : i ≡ length (flat (suc v.depth) v.root) + k =
          omega (arith, place, tailoff-length r) in
        let tail' = set v.tail k x in
        (
          vector_create v.cnt v.depth v.root tail',
          rw (
            lt→ltb i v.cnt (omega (arith, r.count)),
            le→leb (tailoff v) i (omega arith),
            store-set v.tail k x (omega (arith, v_cnt r, r.count)),
          ),
          record {
            count = r.count ∙ sym (length-set xs i x);
            contents =
                ap₂ (λ l t. set l t x) r.contents i_eq
                ∙ set-append_right (flat (suc v.depth) v.root) v.tail k x;
            tail_fits = omega (arith, r.tail_fits, length-set v.tail k x);
            shape =
                HasShape-tail A v.depth v.root v.tail tail'
                  (λ h. omega (arith, h, length-set v.tail k x)) r.shape;
          },
        )
  ]
