-- ===== src/Vector/Index.antt =====
-- `vector_index` of src/vm/seq.c against the list that a vector represents.
use saurus.Base.{
  ℕ, zero, suc, ◌+◌, ◌*◌, ◌%◌, ◌^◌, ◌≤◌, ◌<◌, ◌≡◌, refl, ap, sym, ◌∙◌, inl, inr, List, [], ◌∷◌,
  ◌++◌, length, length-append, get_elem?, none, some, fetch, fetch-append_left, fetch-append_right,
  Run, ok, raise, index_out_of_bounds, lt→ltb, le→ltb, le→leb, lt→leb, ℤ, pos, negsuc, arith,
}
use saurus.Vector.{VectorNode, Vector, sub_index, tailoff, node_index, vector_index}
use saurus.Vector.Shape.{flat, IsSpine, HasShape, Represents}
use saurus.Vector.Walk.{length-flat_spine_le, length-flat_spine_tails, node_index-flat_spine}
use native.Mathlib.Decide.{dec_lt}
use native.Mathlib.Nat.{mod-eq_of_lt}

-- What `vector_index` is to do: the element at `i`, or an error.
abbrev pub element {ℓ} : {A : Type ℓ} → List A → ℤ → Run A
element xs (negsuc n) = raise index_out_of_bounds
element xs (pos i) = elim (get_elem? xs i) [ some x ↦ ok x | none ↦ raise index_out_of_bounds ]

pub element-inside {ℓ} :
    {A : Type ℓ} (xs : List A) (i : ℕ) → i < length xs → element xs (pos i) ≡ fetch xs i
element-inside [] i h = absurd (omega arith)
element-inside (x ∷ xs) zero h = refl
element-inside (x ∷ xs) (suc i) h = element-inside xs i (omega arith)

pub element-outside {ℓ} :
    {A : Type ℓ} (xs : List A) (i : ℕ)
    → length xs ≤ i
    → element xs (pos i) ≡ raise index_out_of_bounds
element-outside [] i h = refl
element-outside (x ∷ xs) zero h = absurd (omega arith)
element-outside (x ∷ xs) (suc i) h = element-outside xs i (omega arith)

module _ {ℓ} (A : Type ℓ) where
  -- The tree holds a whole number of tails, and a walk from the root reads it.
  pub root_tails :
      (d : ℕ) (root : VectorNode A (suc d)) (tail : List A)
      → HasShape A d root tail
      → (k : ℕ) × (length (flat (suc d) root) ≡ k * 32)
  unfolding flat
  root_tails zero root tail (inl e) = (0, ap (λ r. length (flat 1 r)) e)
  root_tails zero root tail (inr s) =
      let (k, e) = length-flat_spine_tails A 0 root s.0 in (suc k, e)
  root_tails (suc d) root tail s =
      let (k, e) = length-flat_spine_tails A (suc d) root s.0 in (suc k, e)

  spine_index :
      (d : ℕ) (root : VectorNode A (suc d))
      → IsSpine A d root
      → (i : ℕ) → i < length (flat (suc d) root)
      → node_index (suc d) root i ≡ fetch (flat (suc d) root) i
  spine_index d root s i lt =
      let e : i % 32 ^ suc (suc d) ≡ i =
        mod-eq_of_lt (omega (arith, length-flat_spine_le A d root s)) in
      node_index-flat_spine A d root s i (rw e lt) ∙ ap (fetch (flat (suc d) root)) e

  pub root_index :
      (d : ℕ) (root : VectorNode A (suc d)) (tail : List A)
      → HasShape A d root tail
      → (i : ℕ) → i < length (flat (suc d) root)
      → node_index (suc d) root i ≡ fetch (flat (suc d) root) i
  unfolding flat
  root_index zero root tail (inl e) i lt =
      absurd (omega (arith, ap (λ r. length (flat {A = A} 1 r)) e))
  root_index zero root tail (inr s) i lt = spine_index 0 root s.0 i lt
  root_index (suc d) root tail s i lt = spine_index (suc d) root s.0 i lt

module _ {ℓ} {A : Type ℓ} {v : Vector A} {xs : List A} (r : Represents v xs) where
  pub v_cnt : v.cnt ≡ length (flat (suc v.depth) v.root) + length v.tail
  v_cnt = r.count ∙ ap length r.contents ∙ length-append (flat (suc v.depth) v.root) v.tail

  -- The index of the first element in the tail.
  pub tailoff-length : tailoff v ≡ length (flat (suc v.depth) v.root)
  unfolding tailoff
  tailoff-length = omega (arith, v_cnt)

  -- An index in the tail is masked to its place there.
  pub tail_place : (i : ℕ) → tailoff v ≤ i → i < v.cnt → tailoff v + sub_index i 0 ≡ i
  unfolding sub_index
  tail_place i lo hi =
      let (k, e) = root_tails A v.depth v.root v.tail r.shape in
      omega (arith, tailoff-length, e, r.tail_fits, v_cnt)

  in_root :
      (i : ℕ)
      → i < length (flat (suc v.depth) v.root)
      → node_index (suc v.depth) v.root i ≡ fetch xs i
  in_root i lt =
      root_index A v.depth v.root v.tail r.shape i lt
      ∙ sym (
          ap (λ l. fetch l i) r.contents
          ∙ fetch-append_left (flat (suc v.depth) v.root) v.tail i lt)

  in_tail : (i : ℕ) → tailoff v ≤ i → i < v.cnt → fetch v.tail (sub_index i 0) ≡ fetch xs i
  in_tail i lo hi = sym (
      ap (λ l. fetch l i) r.contents
      ∙ ap (fetch (flat (suc v.depth) v.root ++ v.tail))
          (omega (arith, tail_place i lo hi, tailoff-length))
      ∙ fetch-append_right (flat (suc v.depth) v.root) v.tail (sub_index i 0))

  -- `vector_index` gives the element at every index inside the represented list, and raises the
  -- error at a negative index and at every index past the end. It never faults.
  pub vector_index-element : (i : ℤ) → vector_index v i ≡ element xs i
  unfolding vector_index
  vector_index-element (negsuc n) = refl
  vector_index-element (pos i) = elim (dec_lt i v.cnt) [
    | no p ↦ rw (le→ltb i v.cnt (omega arith)) (sym (element-outside xs i (omega (arith, r.count))))
    | yes p ↦
        rw (lt→ltb i v.cnt p, element-inside xs i (omega (arith, r.count)))
          (elim (dec_lt i (tailoff v)) [
            | yes q ↦ rw (lt→leb (tailoff v) i q) (in_root i (omega (arith, tailoff-length)))
            | no q ↦ rw (le→leb (tailoff v) i (omega arith)) (in_tail i (omega arith) p)
          ])
  ]
