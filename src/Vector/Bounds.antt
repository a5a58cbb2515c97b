-- ===== src/Vector/Bounds.antt =====
-- `vector_set` of src/vm/seq.c at every index, and `vector_pop` of every vector.
use saurus.Base.{
  ℕ, ◌<◌, ◌≡◌, ◌⊎◌, inl, inr, refl, subst, List, [], ◌∷◌, ◌++◌, length, set, snoc, ok, raise,
  index_out_of_bounds, pop_empty_vector, ℤ, pos, negsuc, arith,
}
use saurus.Vector.{Vector, vector_set, vector_pop}
use saurus.Vector.Shape.{Represents}
use saurus.Vector.Index.{element, element-outside}
use saurus.Vector.Set.{vector_set-outside, vector_set-Represents}
use saurus.Vector.Pop.{vector_pop-empty, vector_pop-Represents}
use native.Mathlib.Decide.{dec_lt}

module _ {ℓ} {A : Type ℓ} where
  -- `vector_set` at every index, of a vector that represents a list: where the list has no element
  -- (a negative index or one past the end) it raises the error, and everywhere else it ends with a
  -- vector that represents the list with that element replaced.
  pub vector_set-element :
      {v : Vector A} {xs : List A} (x : A)
      → Represents v xs
      → (i : ℤ)
      → ((element xs i ≡ raise index_out_of_bounds)
          × (vector_set v i x ≡ raise index_out_of_bounds))
        ⊎ ((j : ℕ) × (i ≡ pos j)
            × (j < length xs)
            × (v' : Vector A) × (vector_set v i x ≡ ok v')
            × Represents v' (set xs j x))
  unfolding vector_set
  vector_set-element x r (negsuc n) = inl (refl, refl)
  vector_set-element {v} {xs} x r (pos j) = elim (dec_lt j (length xs)) [
    | yes p ↦ let (v', run, r') = vector_set-Represents x r j p in inr (j, refl, p, v', run, r')
    | no p ↦ inl (element-outside xs j (omega arith), vector_set-outside x r j (omega arith))
  ]

  -- `vector_pop` of a vector that represents a list raises the error if the list is empty, and
  -- otherwise ends with a vector that represents the list without its last element.
  pub vector_pop-last :
      {v : Vector A} {xs : List A}
      → Represents v xs
      → ((xs ≡ []) × (vector_pop v ≡ raise pop_empty_vector))
        ⊎ ((ys : List A) × (y : A) × (xs ≡ ys ++ y ∷ [])
            × (v' : Vector A) × (vector_pop v ≡ ok v')
            × Represents v' ys)
  vector_pop-last {v = v} {xs = []} r = inl (refl, vector_pop-empty r)
  vector_pop-last {v = v} {xs = x ∷ xs} r =
      let (ys, y, e) = snoc x xs in
      let (v', run, r') = vector_pop-Represents y (subst (Represents v) e r) in
      inr (ys, y, e, v', run, r')
