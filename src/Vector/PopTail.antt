-- ===== src/Vector/PopTail.antt =====
-- `pop_tail` of src/vm/seq.c takes the rightmost node of values off the tree.
use saurus.Base.{
  ℕ, zero, suc, ◌+◌, ◌≤◌, ◌<◌, ◌≡◌, refl, ap, sym, subst, ◌∙◌, List, [], ◌∷◌, ◌++◌, append_assoc,
  append-nil, length, length-append, take-init, All, Option, none, some, ==-ne, fetch_last-snoc,
  store_last-snoc, ok, arith,
}
use saurus.Vector.{VectorNode, contract, pop_tail}
use saurus.Vector.Shape.{flat, IsFull, IsSpine}
use saurus.Vector.Walk.{All-EndsWith}
use saurus.Vector.PushTail.{flat-snoc}
use saurus.Vector.Chunks.{concat_map-append}

module _ {ℓ} {B : Type ℓ} where
  contract-snoc : (y : B) (ys : List B) (x : B) → contract ((y ∷ ys) ++ x ∷ []) ≡ some (y ∷ ys)
  unfolding contract
  contract-snoc y ys x =
      let e : length ((y ∷ ys) ++ x ∷ []) ≡ suc (length (y ∷ ys)) =
        omega (arith, length-append (y ∷ ys) (x ∷ [])) in
      rw (==-ne (length ((y ∷ ys) ++ x ∷ [])) 1 (omega arith))
        (ap some (take-init ((y ∷ ys) ++ x ∷ []) (y ∷ ys) x refl))

module _ {ℓ} (A : Type ℓ) where
  -- A row of full nodes has a right edge.
  pub All-IsSpine :
      (d : ℕ) (n : VectorNode A (suc d))
      → 1 ≤ length {A = VectorNode A d} n
      → length {A = VectorNode A d} n ≤ 32
      → All {A = VectorNode A d} (IsFull A d) n
      → IsSpine A d n
  All-IsSpine zero n lo hi h = All-EndsWith A (IsFull A 0) n lo hi h
  All-IsSpine (suc d) n lo hi h =
      let e = All-EndsWith A (IsFull A (suc d)) n lo hi h in
      record {
        init = e.init;
        last = e.last;
        parts = e.parts;
        fits = e.fits;
        inner = e.inner;
        outer =
            All-IsSpine d e.last (omega (arith, e.outer.0)) (omega (arith, e.outer.0)) e.outer.1;
      }

  -- What `pop_tail` is to return for `arr`: the tail and what is left, `none` if nothing is.
  abbrev pub Popped :
      (d : ℕ) → VectorNode A (suc d) → Option (VectorNode A (suc d)) × List A → Type ℓ
  Popped d arr (none, t) =
      (flat (suc d) arr ≡ t) × (length t ≡ 32) × (length {A = VectorNode A d} arr ≡ 1)
  Popped d arr (some r, t) =
      (flat (suc d) arr ≡ flat (suc d) r ++ t)
      × (length t ≡ 32)
      × IsSpine A d r
      × (length {A = VectorNode A d} arr ≤ length {A = VectorNode A d} r + 1)
      × (length {A = VectorNode A d} r < length {A = VectorNode A d} arr
          → All {A = VectorNode A d} (IsFull A d) r)

  contract-Popped :
      (d : ℕ) (init : VectorNode A (suc d)) (last : VectorNode A d) (t : List A)
      → length {A = VectorNode A d} init < 32
      → All {A = VectorNode A d} (IsFull A d) init
      → flat d last ≡ t
      → length t ≡ 32
      → Popped d (init ++ last ∷ []) (contract (init ++ last ∷ []), t)
  unfolding contract flat
  contract-Popped d [] last t fits full e h = (append-nil (flat d last) ∙ e, h, refl)
  contract-Popped d (y ∷ ys) last t fits full e h = rw (contract-snoc y ys last) (
    concat_map-append (flat d) (y ∷ ys) (last ∷ [])
        ∙ ap (λ l. flat (suc d) (y ∷ ys) ++ l) (append-nil (flat d last) ∙ e),
    h,
    All-IsSpine d (y ∷ ys) (omega arith) (omega arith) full,
    omega (arith, length-append (y ∷ ys) (last ∷ [])),
    λ _. full,
  )

  module _ (d : ℕ) (init : VectorNode A (suc (suc d))) (last : VectorNode A (suc d))
      (t : List A) where
    pop_tail_kept :
        (c : VectorNode A (suc d))
        → pop_tail d last ≡ ok (some c, t)
        → pop_tail (suc d) (init ++ last ∷ []) ≡ ok (some (init ++ c ∷ []), t)
    unfolding pop_tail
    pop_tail_kept c run = rw (fetch_last-snoc init last, run) (rw (store_last-snoc init last c))

    pop_tail_emptied :
        pop_tail d last ≡ ok (none, t)
        → pop_tail (suc d) (init ++ last ∷ []) ≡ ok (contract (init ++ last ∷ []), t)
    unfolding pop_tail
    pop_tail_emptied run = rw (fetch_last-snoc init last, run)

  step-Popped :
      (d : ℕ) (init : VectorNode A (suc (suc d))) (last : VectorNode A (suc d))
      → length {A = VectorNode A (suc d)} init < 32
      → All {A = VectorNode A (suc d)} (IsFull A (suc d)) init
      → (res : Option (VectorNode A (suc d)) × List A) → pop_tail d last ≡ ok res
      → Popped d last res
      → (out : Option (VectorNode A (suc (suc d))) × List A) × (pop_tail (suc d) (init ++ last ∷ [])
          ≡ ok out)
        × Popped (suc d) (init ++ last ∷ []) out
  step-Popped d init last fits full (none, t) run p = (
    (contract (init ++ last ∷ []), t),
    pop_tail_emptied d init last t run,
    contract-Popped (suc d) init last t fits full p.0 p.1,
  )
  step-Popped d init last fits full (some c, t) run p = (
    (some (init ++ c ∷ []), t),
    pop_tail_kept d init last t c run,
    (
      flat-snoc A (suc d) (IsSpine A d) init last
          ∙ ap (λ l. flat (suc (suc d)) init ++ l) p.0
          ∙ sym (append_assoc (flat (suc (suc d)) init) (flat (suc d) c) t)
          ∙ ap (λ l. l ++ t) (sym (flat-snoc A (suc d) (IsSpine A d) init c)),
      p.1,
      record { init = init; last = c; parts = refl; fits = fits; inner = full; outer = p.2 },
      omega (arith, length-append init (c ∷ []), length-append init (last ∷ [])),
      λ lt. absurd (omega (arith, length-append init (c ∷ []), length-append init (last ∷ []))),
    ),
  )

  pub pop_tail-Popped :
      (d : ℕ) (arr : VectorNode A (suc d))
      → IsSpine A d arr
      → (out : Option (VectorNode A (suc d)) × List A) × (pop_tail d arr ≡ ok out)
        × Popped d arr out
  unfolding pop_tail flat
  pop_tail-Popped zero arr e =
      subst (λ l. (out : _) × (pop_tail 0 l ≡ ok out) × Popped 0 l out) (sym e.parts)
        (
          (contract (e.init ++ e.last ∷ []), e.last),
          rw (fetch_last-snoc e.init e.last),
          contract-Popped 0 e.init e.last e.last e.fits e.inner refl e.outer,
        )
  pop_tail-Popped (suc d) arr e =
      let (res, run, p) = pop_tail-Popped d e.last e.outer in
      subst (λ l. (out : _) × (pop_tail (suc d) l ≡ ok out) × Popped (suc d) l out) (sym e.parts)
        (step-Popped d e.init e.last e.fits e.inner res run p)
