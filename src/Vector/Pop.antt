-- ===== src/Vector/Pop.antt =====
-- `vector_pop` of src/vm/seq.c takes the last element off the list that a vector represents.
use saurus.Base.{
  ℕ, zero, suc, ◌+◌, ◌-◌, ◌≤◌, ◌≡◌, refl, ap, sym, subst, ◌∙◌, inl, inr, List, [], ◌∷◌, ◌++◌,
  append_assoc, append-nil, append_snoc-injective, length, length-append, take, take-init, snoc,
  Option, none, some, ==-ne, ==_iff, lt→ltb, ◌>>=◌, ok, raise, pop_empty_vector, arith,
}
use saurus.Vector.{
  VectorNode, Vector, or_empty, pop_tail, shrink_root, vector_create, vector_create_empty,
  vector_pop,
}
use saurus.Vector.Shape.{flat, IsFull, IsSpine, HasShape, HasShape-tail, Represents}
use saurus.Vector.Push.{vector_create_empty-Represents}
use saurus.Vector.PopTail.{Popped, All-IsSpine, pop_tail-Popped}

pred-add-one : (n : ℕ) → n + 1 - 1 ≡ n
pred-add-one n = omega arith

module _ {ℓ} (A : Type ℓ) where
  IsFull-HasShape :
      (d : ℕ) (c : VectorNode A (suc d)) (t : List A)
      → IsFull A (suc d) c
      → 1 ≤ length t
      → HasShape A d c t
  IsFull-HasShape zero c t h k =
      inr (All-IsSpine A 0 c (omega (arith, h.0)) (omega (arith, h.0)) h.1, k)
  IsFull-HasShape (suc d) c t h k =
      (All-IsSpine A (suc d) c (omega (arith, h.0)) (omega (arith, h.0)) h.1, omega (arith, h.0), k)

  shrink_root-Represents :
      (d : ℕ) (root : VectorNode A (suc d)) (tail ys : List A)
      → HasShape A d root tail
      → 1 ≤ length {A = VectorNode A d} root
      → ys ≡ flat (suc d) root
      → (out : Option (VectorNode A (suc d)) × List A) → Popped A d root out
      → (v : Vector A) × (shrink_root (length ys) d (or_empty out.0) out.1 ≡ ok v) × Represents v ys
  unfolding shrink_root flat
  shrink_root-Represents zero root tail ys shape _ e (none, t) p = (
    vector_create (length ys) 0 [] t,
    refl,
    record { count = refl; contents = e ∙ p.0; tail_fits = omega (arith, p.1); shape = inl refl },
  )
  shrink_root-Represents (suc d) root tail ys shape _ e (none, t) p =
      absurd (omega (arith, shape.1, p.2))
  shrink_root-Represents zero root tail ys shape _ e (some r, t) p = (
    vector_create (length ys) 0 r t,
    refl,
    record {
      count = refl;
      contents = e ∙ p.0;
      tail_fits = omega (arith, p.1);
      shape = inr (p.2, omega (arith, p.1));
    },
  )
  shrink_root-Represents (suc d) root tail ys shape _ e (some (c ∷ []), t) p = (
    vector_create (length ys) d c t,
    refl,
    record {
      count = refl;
      contents = e ∙ p.0 ∙ ap (λ l. l ++ t) (append-nil (flat (suc d) c));
      tail_fits = omega (arith, p.1);
      shape = IsFull-HasShape d c t (p.4 (omega (arith, shape.1))).0 (omega (arith, p.1));
    },
  )
  shrink_root-Represents (suc d) root tail ys shape _ e (some [], t) p =
      absurd (omega (arith, shape.1, p.3))
  shrink_root-Represents (suc d) root tail ys shape _ e (some (c ∷ c' ∷ r), t) p = (
    vector_create (length ys) (suc d) (c ∷ c' ∷ r) t,
    rw (==-ne (suc (suc (length {A = VectorNode A (suc d)} r))) 1 (omega arith)),
    record {
      count = refl;
      contents = e ∙ p.0;
      tail_fits = omega (arith, p.1);
      shape = (p.2, omega arith, omega (arith, p.1));
    },
  )

  spine_pop :
      (d : ℕ) (root : VectorNode A (suc d)) (z : A) (ys : List A) (y : A)
      → HasShape A d root (z ∷ [])
      → IsSpine A d root
      → 1 ≤ length {A = VectorNode A d} root
      → ys ++ y ∷ [] ≡ flat (suc d) root ++ z ∷ []
      → (v : Vector A) × ((pop_tail d root >>= λ out.
            shrink_root (length ys) d (or_empty out.0) out.1)
          ≡ ok v)
        × Represents v ys
  spine_pop d root z ys y shape s k c =
      let (out, run, p) = pop_tail-Popped A d root s in
      let (v, shrunk, r) =
        shrink_root-Represents d root (z ∷ []) ys shape k
          (append_snoc-injective ys (flat (suc d) root) y z c).0 out p in
      (v, rw run shrunk, r)

  -- A root beside a tail of one value is not empty, if there are two values.
  root_pop :
      (d : ℕ) (root : VectorNode A (suc d)) (z : A) (ys : List A) (y : A)
      → HasShape A d root (z ∷ [])
      → 1 ≤ length ys
      → ys ++ y ∷ [] ≡ flat (suc d) root ++ z ∷ []
      → (v : Vector A) × ((pop_tail d root >>= λ out.
            shrink_root (length ys) d (or_empty out.0) out.1)
          ≡ ok v)
        × Represents v ys
  unfolding flat
  root_pop zero root z ys y (inl e) k c = absurd (
      omega (
        arith,
        ap length (append_snoc-injective ys (flat 1 root) y z c).0,
        ap (λ r. length (flat {A = A} 1 r)) e,
      ))
  root_pop zero root z ys y (inr s) k c =
      spine_pop zero root z ys y (inr s) s.0
        (omega (arith, ap length s.0.parts, length-append s.0.init (s.0.last ∷ []))) c
  root_pop (suc d) root z ys y s k c = spine_pop (suc d) root z ys y s s.0 (omega (arith, s.1)) c

  -- Without a tail there is no value.
  no_tail :
      (d : ℕ) (root : VectorNode A (suc d)) (xs : List A)
      → HasShape A d root []
      → xs ≡ flat (suc d) root ++ []
      → length xs ≡ 0
  unfolding flat
  no_tail zero root xs (inl e) c =
      ap length (c ∙ append-nil (flat {A = A} 1 root)) ∙ ap (λ r. length (flat {A = A} 1 r)) e
  no_tail zero root xs (inr s) c = absurd (omega (arith, s.1))
  no_tail (suc d) root xs s c = absurd (omega (arith, s.2))

  pop_parts :
      (d : ℕ) (root : VectorNode A (suc d)) (tail ys : List A) (y : A)
      → Represents (vector_create (length ys + 1) d root tail) (ys ++ y ∷ [])
      → (v : Vector A) × (vector_pop (vector_create (length ys + 1) d root tail) ≡ ok v)
        × Represents v ys
  unfolding vector_pop vector_create
  pop_parts d root tail [] y r = (vector_create_empty, refl, vector_create_empty-Represents)
  pop_parts d root [] (a ∷ ys) y r =
      absurd (omega (arith, no_tail d root (a ∷ ys ++ y ∷ []) r.shape r.contents))
  pop_parts d root (z ∷ []) (a ∷ ys) y r =
      let (v, run, p) = root_pop d root z (a ∷ ys) y r.shape (omega arith) r.contents in
      (
        v,
        rw
            (
              ==-ne (length (a ∷ ys) + 1) 0 (omega arith),
              ==-ne (length (a ∷ ys) + 1) 1 (omega arith),
            )
            (ap (λ n. pop_tail d root >>= λ out. shrink_root n d (or_empty out.0) out.1)
                (pred-add-one (length (a ∷ ys)))
              ∙ run),
        p,
      )
  pop_parts d root (z ∷ z' ∷ t) (a ∷ ys) y r =
      let (ts, w, e) = snoc z (z' ∷ t) in
      let kept = take-init (z ∷ z' ∷ t) ts w e in
      (
        vector_create (length (a ∷ ys) + 1 - 1) d root
            (take (length (z ∷ z' ∷ t) - 1) (z ∷ z' ∷ t)),
        rw (
          ==-ne (length (a ∷ ys) + 1) 0 (omega arith),
          ==-ne (length (a ∷ ys) + 1) 1 (omega arith),
          lt→ltb 1 (length (z ∷ z' ∷ t)) (omega arith),
        ),
        record {
          count = pred-add-one (length (a ∷ ys));
          contents =
              (append_snoc-injective (a ∷ ys) (flat (suc d) root ++ ts) y w (
                r.contents
                ∙ ap (λ l. flat (suc d) root ++ l) e
                ∙ sym (append_assoc (flat (suc d) root) ts (w ∷ [])))).0
              ∙ ap (λ l. flat (suc d) root ++ l) (sym kept);
          tail_fits =
              omega (arith, r.tail_fits, ap length kept, ap length e, length-append ts (w ∷ []));
          shape =
              HasShape-tail A d root (z ∷ z' ∷ t) _
                (λ _. omega (arith, ap length kept, ap length e, length-append ts (w ∷ [])))
                r.shape;
        },
      )

module _ {ℓ} {A : Type ℓ} where
  -- Popping a vector that represents no value raises the error.
  pub vector_pop-empty : {v : Vector A} → Represents v [] → vector_pop v ≡ raise pop_empty_vector
  unfolding vector_pop
  vector_pop-empty {v} r = rw ((==_iff v.cnt 0).1 r.count)

  pub vector_pop-Represents :
      {v : Vector A} {ys : List A} (y : A)
      → Represents v (ys ++ y ∷ [])
      → (v' : Vector A) × (vector_pop v ≡ ok v') × Represents v' ys
  unfolding vector_create
  vector_pop-Represents {v} {ys} y r =
      let e : v.cnt ≡ length ys + 1 = r.count ∙ length-append ys (y ∷ []) in
      let same : v ≡ vector_create (length ys + 1) v.depth v.root v.tail =
        ap (λ n. vector_create n v.depth v.root v.tail) e in
      subst (λ w. (v' : Vector A) × (vector_pop w ≡ ok v') × Represents v' ys) (sym same)
        (pop_parts A v.depth v.root v.tail ys y (subst (λ w. Represents w (ys ++ y ∷ [])) same r))
