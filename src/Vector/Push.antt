-- ===== src/Vector/Push.antt =====
-- `vector_push` of src/vm/seq.c appends to the list that a vector represents.
use saurus.Base.{
  ℕ, zero, suc, ◌+◌, ◌<◌, ◌≡◌, refl, ap, sym, ap₂, subst, ◌∙◌, inl, inr, List, [], ◌∷◌, ◌++◌,
  append_assoc, append-nil, length, length-append, Option, none, some, ok, lt→ltb, le→ltb,
  int_bound, add_int-ok, arith,
}
use saurus.Vector.{
  VectorNode, Vector, push_tail, grow_root, vector_push, vector_create, vector_create_empty,
}
use saurus.Vector.Shape.{flat, IsFull, HasShape, HasShape-tail, Represents}
use saurus.Vector.PushTail.{PushedSpine, push_tail-Pushed, push_tail-Pushed_bottom}
use native.Mathlib.Decide.{dec_lt}

module _ {ℓ} (A : Type ℓ) where
  -- `PushedSpine`, also for an empty root.
  root_push :
      (d : ℕ) (root : VectorNode A (suc d)) (tail : List A)
      → HasShape A d root tail
      → length tail ≡ 32
      → (out : VectorNode A (suc d) × Option (VectorNode A (suc d))) × (push_tail d root tail
          ≡ ok out)
        × PushedSpine A d root tail out
  root_push zero root tail (inl e) h =
      push_tail-Pushed_bottom A root tail (rw e (omega arith)) (rw e tt) h
  root_push zero root tail (inr s) h = push_tail-Pushed A 0 root tail s.0 h
  root_push (suc d) root tail s h = push_tail-Pushed A (suc d) root tail s.0 h

  grow_root-Represents :
      (cnt d : ℕ) (root : VectorNode A (suc d)) (tail xs : List A) (x : A)
      → HasShape A d root tail
      → xs ≡ flat (suc d) root ++ tail
      → cnt ≡ length xs + 1
      → (out : VectorNode A (suc d) × Option (VectorNode A (suc d))) → PushedSpine A d root tail out
      → Represents (grow_root cnt d out.0 out.1 x) (xs ++ x ∷ [])
  unfolding grow_root flat
  grow_root-Represents cnt zero root tail xs x shape e c (r, none) p = record {
    count = c ∙ sym (length-append xs (x ∷ []));
    contents = ap (λ l. l ++ x ∷ []) (e ∙ sym p.1);
    tail_fits = omega arith;
    shape = inr (p.0, omega arith);
  }
  grow_root-Represents cnt (suc d) root tail xs x shape e c (r, none) p = record {
    count = c ∙ sym (length-append xs (x ∷ []));
    contents = ap (λ l. l ++ x ∷ []) (e ∙ sym p.1);
    tail_fits = omega arith;
    shape = (p.0, omega (arith, shape.1, p.2), omega arith);
  }
  grow_root-Represents cnt d root tail xs x shape e c (r, some ex) p = record {
    count = c ∙ sym (length-append xs (x ∷ []));
    contents =
        ap (λ l. l ++ x ∷ [])
          (e
            ∙ ap₂ ◌++◌ (ap (flat (suc d)) (sym p.0)) (sym p.3)
            ∙ ap (λ l. flat (suc d) r ++ l) (sym (append-nil (flat (suc d) ex))));
    tail_fits = omega arith;
    shape = (
      record {
        init = r ∷ [];
        last = ex;
        parts = refl;
        fits = omega arith;
        inner = (subst (IsFull A (suc d)) (sym p.0) p.1, tt);
        outer = p.2;
      },
      omega arith,
      omega arith,
    );
  }

module _ {ℓ} {A : Type ℓ} where
  -- An empty vector represents the empty list.
  pub vector_create_empty-Represents : Represents {A = A} vector_create_empty []
  unfolding vector_create_empty flat
  vector_create_empty-Represents = record {
    count = refl;
    contents = refl;
    tail_fits = omega arith;
    shape = inl refl;
  }

  -- Pushing a value on a vector that represents a list of fewer than 2^31 - 1 values ends with a
  -- vector that represents the list with the value added at its end.
  pub vector_push-Represents :
      {v : Vector A} {xs : List A} (x : A)
      → Represents v xs
      → length xs + 1 < int_bound
      → (v' : Vector A) × (vector_push v x ≡ ok v') × Represents v' (xs ++ x ∷ [])
  unfolding vector_push vector_create
  vector_push-Represents {v} {xs} x r small = elim (dec_lt (length v.tail) 32) [
    | yes p ↦ (
      vector_create (v.cnt + 1) v.depth v.root (v.tail ++ x ∷ []),
      rw (lt→ltb (length v.tail) 32 p, add_int-ok v.cnt 1 (omega (arith, r.count))),
      record {
        count = omega (arith, r.count, length-append xs (x ∷ []));
        contents =
            ap (λ l. l ++ x ∷ []) r.contents
            ∙ append_assoc (flat (suc v.depth) v.root) v.tail (x ∷ []);
        tail_fits = omega (arith, length-append v.tail (x ∷ []));
        shape =
            HasShape-tail A v.depth v.root v.tail (v.tail ++ x ∷ [])
              (λ _. omega (arith, length-append v.tail (x ∷ []))) r.shape;
      },
    )
    | no p ↦
        let (out, run, pushed) =
          root_push A v.depth v.root v.tail r.shape (omega (arith, r.tail_fits)) in
        (
          grow_root (v.cnt + 1) v.depth out.0 out.1 x,
          rw (
            le→ltb (length v.tail) 32 (omega arith),
            run,
            add_int-ok v.cnt 1 (omega (arith, r.count)),
          ),
          grow_root-Represents A (v.cnt + 1) v.depth v.root v.tail xs x r.shape r.contents
              (omega (arith, r.count)) out pushed,
        )
  ]
