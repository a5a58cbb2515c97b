-- ===== src/Seq/Walk.antt =====
-- A walk over a sequence of src/vm/seq.c by `seq_first` and `seq_rest` until nil.
use saurus.Base.{
  ℕ, zero, suc, ◌+◌, ◌≤◌, ◌<◌, ◌≡◌, refl, ap, sym, ◌∙◌, List, [], ◌∷◌, ◌++◌, length, take, take-all,
  drop, ◌==◌, ==_iff, ==-ne, true, false, Run, ok, fault, fetch, fetch_ok, ◌>>=◌, pos, arith,
}
use saurus.Vector.{Vector}
use saurus.Vector.Shape.{Represents}
use saurus.Vector.Index.{vector_index-element, element-inside}
use saurus.Seq.{
  SeqValue, seq_nil, cell_seq, it_vector, cell_loop, cell_create_array, it_create_vector, seq_first,
  seq_rest,
}
use native.Mathlib.Decide.{ℕ_discrete}
use native.Mathlib.Nat

module _ {ℓ} {A : Type ℓ} where
  -- The values of a sequence of at most `f` of them.
  unfoldable pub walk : ℕ → SeqValue A → Run (List A)
  walk f seq_nil = ok []
  walk zero s = fault
  walk (suc f) s =
      let first = seq_first s in
      let rest = seq_rest s >>= walk f in first >>= λ x. rest >>= λ xs. ok (x ∷ xs)

  drop-fetch : (xs : List A) (i : ℕ) (x : A) → fetch xs i ≡ ok x → drop i xs ≡ x ∷ drop (i + 1) xs
  drop-fetch [] i x e = absurd (cc)
  drop-fetch (y ∷ xs) zero x e = cc
  drop-fetch (y ∷ xs) (suc i) x e = rw Nat.suc-add (drop-fetch xs i x e)

  drop-length : (xs : List A) → drop (length xs) xs ≡ []
  drop-length [] = refl
  drop-length (x ∷ xs) = drop-length xs

  module _ {v : Vector A} {xs : List A} (r : Represents v xs) where
    first-it_vector :
        (i : ℕ) (x : A) → i < length xs → fetch xs i ≡ ok x → seq_first (it_vector v i) ≡ ok x
    unfolding seq_first
    first-it_vector i x lt e = vector_index-element r (pos i) ∙ element-inside xs i lt ∙ e

    walk-it_vector :
        (f i : ℕ) → i < length xs → length xs ≤ f + i → walk f (it_vector v i) ≡ ok (drop i xs)
    unfolding walk seq_rest
    walk-it_vector zero i lt enough = absurd (omega arith)
    walk-it_vector (suc f) i lt enough =
        let (x, e) = fetch_ok xs i lt in
        rw (first-it_vector i x lt e, drop-fetch xs i x e)
          (elim (ℕ_discrete (i + 1) v.cnt) [
            | yes p ↦
                let e1 : (i + 1 == v.cnt) ≡ true = (==_iff (i + 1) v.cnt).1 p in
                let e2 : drop (i + 1) xs ≡ [] =
                  ap (λ k. drop k xs) (p ∙ r.count) ∙ drop-length xs in
                rw (e1, e2) refl
            | no p ↦
                rw
                  (
                    ==-ne (i + 1) v.cnt p,
                    walk-it_vector f (i + 1) (omega (arith, p, r.count)) (omega (arith, enough)),
                  )
                  refl
          ])

  -- The iterator over a vector gives the list that the vector represents, in as many turns as that has
  -- values: for the empty list it is nil.
  pub walk-it_create_vector :
      {v : Vector A} {xs : List A}
      → Represents v xs
      → (f : ℕ) → length xs ≤ f
      → walk f (it_create_vector v) ≡ ok xs
  unfolding walk it_create_vector
  walk-it_create_vector {v = v} {xs = []} r f h =
      let e : (v.cnt == 0) ≡ true = (==_iff v.cnt 0).1 r.count in rw e refl
  walk-it_create_vector {v = v} {xs = x ∷ xs} r f h =
      let ne : (v.cnt == 0) ≡ false = ==-ne v.cnt 0 (λ e. absurd (omega (arith, e, r.count))) in
      rw ne (walk-it_vector r f 0 (omega arith) (omega (arith, h)))

  -- The cells of a list, before `tmp`.
  abbrev cells : List A → SeqValue A → SeqValue A
  cells [] tmp = tmp
  cells (x ∷ xs) tmp = cell_seq x (cells xs tmp)

  cells-append :
      (xs : List A) (x : A) (tmp : SeqValue A)
      → cells (xs ++ x ∷ []) tmp ≡ cells xs (cell_seq x tmp)
  cells-append [] x tmp = refl
  cells-append (y ∷ xs) x tmp = ap (cell_seq y) (cells-append xs x tmp)

  take-fetch :
      (xs : List A) (i : ℕ) (x : A) → fetch xs i ≡ ok x → take (suc i) xs ≡ take i xs ++ x ∷ []
  take-fetch [] i x e = absurd (cc)
  take-fetch (y ∷ xs) zero x e = cc
  take-fetch (y ∷ xs) (suc i) x e = ap (λ l. y ∷ l) (take-fetch xs i x e)

  cell_loop-cells :
      (i : ℕ) (array : List A) (tmp : SeqValue A)
      → i ≤ length array
      → cell_loop i array tmp ≡ ok (cells (take i array) tmp)
  unfolding cell_loop
  cell_loop-cells zero array tmp h = refl
  cell_loop-cells (suc i) array tmp h =
      let (x, e) = fetch_ok array i (omega arith) in
      rw e (
        cell_loop-cells i array (cell_seq x tmp) (omega arith)
        ∙ ap ok (
            sym
              (ap (λ l. cells l tmp) (take-fetch array i x e) ∙ cells-append (take i array) x tmp)))

  walk-cells : (xs : List A) (f : ℕ) → length xs ≤ f → walk f (cells xs seq_nil) ≡ ok xs
  unfolding walk seq_first seq_rest
  walk-cells [] f h = refl
  walk-cells (x ∷ xs) zero h = absurd (omega arith)
  walk-cells (x ∷ xs) (suc f) h = ap (λ m. m >>= λ ys. ok (x ∷ ys)) (walk-cells xs f (omega arith))

  -- `cell_create_array` ends with a sequence that gives the array's values in their order, in as many
  -- turns as there are values.
  pub walk-cell_create_array :
      (array : List A) (f : ℕ)
      → length array ≤ f
      → (s : SeqValue A) × (cell_create_array array ≡ ok s) × (walk f s ≡ ok array)
  unfolding cell_create_array
  walk-cell_create_array array f h = (
    cells array seq_nil,
    cell_loop-cells (length array) array seq_nil (omega arith)
        ∙ ap (λ l. ok (cells l seq_nil)) (take-all array),
    walk-cells array f h,
  )
