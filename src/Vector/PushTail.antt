-- ===== src/Vector/PushTail.antt =====
-- `push_tail` of src/vm/seq.c hangs a full tail into the right edge of the tree.
use saurus.Base.{
  concat_map, ℕ, zero, suc, ◌≤◌, ◌<◌, ◌≡◌, refl, ap, sym, subst, ◌∙◌, List, [], ◌∷◌, ◌++◌,
  append_assoc, append-nil, length, length-append, All, All-append, Option, none, some, ==_iff, ◌≢◌,
  fetch_last-snoc, store_last-snoc, ok, arith,
}
use saurus.Vector.{VectorNode, expand, push_tail}
use saurus.Vector.Shape.{flat, EndsWith, IsFull, IsSpine}
use saurus.Vector.Chunks.{concat_map-append}
use native.Mathlib.Decide.{ℕ_discrete}

module _ {ℓ} {B : Type ℓ} (arr : List B) (c : B) where
  expand_full : length arr ≡ 32 → expand arr c ≡ (arr, some (c ∷ []))
  unfolding expand
  expand_full p = rw ((==_iff (length arr) 32).1 p)

  expand_room : length arr ≢ 32 → expand arr c ≡ (arr ++ c ∷ [], none)
  unfolding expand
  expand_room p = ground arith

module _ {ℓ} (A : Type ℓ) where
  module _ {κ} (d : ℕ) (Q : VectorNode A d → Type κ) where
    -- What `push_tail` is to return for the node `arr` when the values `xs` come behind it: a node
    -- that holds both, or, if `arr` is full, `arr` and a node with `xs`.
    abbrev Pushed :
        VectorNode A (suc d)
        → List A
        → VectorNode A (suc d) × Option (VectorNode A (suc d))
        → Type (ℓ ⊔ κ)
    Pushed arr xs (r, none) =
        EndsWith (IsFull A d) Q r
        × (flat (suc d) r ≡ flat (suc d) arr ++ xs)
        × (length arr ≤ length r)
    Pushed arr xs (r, some ex) =
        (r ≡ arr) × IsFull A (suc d) arr × EndsWith (IsFull A d) Q ex × (flat (suc d) ex ≡ xs)

    pub flat-snoc :
        (arr : VectorNode A (suc d)) (c : VectorNode A d)
        → flat (suc d) (arr ++ c ∷ []) ≡ flat (suc d) arr ++ flat d c
    unfolding flat
    flat-snoc arr c =
        concat_map-append (flat d) arr (c ∷ [])
        ∙ ap (λ t. concat_map (flat d) arr ++ t) (append-nil (flat d c))

    expand-Pushed :
        (arr : VectorNode A (suc d)) (c : VectorNode A d)
        → length arr ≤ 32
        → All (IsFull A d) arr
        → Q c
        → Pushed arr (flat d c) (expand arr c)
    unfolding flat
    expand-Pushed arr c fits full q = elim (ℕ_discrete (length arr) 32) [
      | yes p ↦ rw (expand_full arr c p) (
        refl,
        (p, full),
        record { init = []; last = c; parts = refl; fits = omega arith; inner = tt; outer = q },
        append-nil (flat d c),
      )
      | no p ↦ rw (expand_room arr c p) (
        record { init = arr; last = c; parts = refl; fits = omega arith; inner = full; outer = q },
        flat-snoc arr c,
        omega (arith, length-append arr (c ∷ [])),
      )
    ]

  -- `Pushed` for a node on the right edge.
  abbrev pub PushedSpine :
      (d : ℕ)
      → VectorNode A (suc d)
      → List A
      → VectorNode A (suc d) × Option (VectorNode A (suc d))
      → Type ℓ
  PushedSpine d arr xs (r, none) =
      IsSpine A d r
      × (flat (suc d) r ≡ flat (suc d) arr ++ xs)
      × (length {A = VectorNode A d} arr ≤ length {A = VectorNode A d} r)
  PushedSpine d arr xs (r, some ex) =
      (r ≡ arr) × IsFull A (suc d) arr × IsSpine A d ex × (flat (suc d) ex ≡ xs)

  pub push_tail-Pushed_bottom :
      (arr : VectorNode A 1) (tail : List A)
      → length arr ≤ 32
      → All (IsFull A 0) arr
      → length tail ≡ 32
      → (res : VectorNode A 1 × Option (VectorNode A 1)) × (push_tail 0 arr tail ≡ ok res)
        × PushedSpine 0 arr tail res
  unfolding flat push_tail
  push_tail-Pushed_bottom arr tail fits full h =
      (expand arr tail, refl, expand-Pushed 0 (IsFull A 0) arr tail fits full h)

  module _ (d : ℕ) (init : VectorNode A (suc (suc d))) (last c : VectorNode A (suc d))
      (tail : List A) where
    push_tail_kept :
        push_tail d last tail ≡ ok (c, none)
        → push_tail (suc d) (init ++ last ∷ []) tail ≡ ok (init ++ c ∷ [], none)
    unfolding push_tail
    push_tail_kept run = rw (fetch_last-snoc init last, run) (rw (store_last-snoc init last c))

    push_tail_expanded :
        {ex : VectorNode A (suc d)}
        → push_tail d last tail ≡ ok (c, some ex)
        → push_tail (suc d) (init ++ last ∷ []) tail ≡ ok (expand (init ++ last ∷ []) ex)
    unfolding push_tail
    push_tail_expanded run = rw (fetch_last-snoc init last, run)

  step-Pushed :
      (d : ℕ) (init : VectorNode A (suc (suc d))) (last : VectorNode A (suc d)) (tail : List A)
      → length {A = VectorNode A (suc d)} init < 32
      → All {A = VectorNode A (suc d)} (IsFull A (suc d)) init
      → (res : VectorNode A (suc d) × Option (VectorNode A (suc d)))
      → push_tail d last tail ≡ ok res
      → PushedSpine d last tail res
      → (out : VectorNode A (suc (suc d)) × Option (VectorNode A (suc (suc d)))) × (push_tail
            (suc d)
            (init ++ last ∷ [])
            tail
          ≡ ok out)
        × PushedSpine (suc d) (init ++ last ∷ []) tail out
  step-Pushed d init last tail fits full (c, none) run p = (
    (init ++ c ∷ [], none),
    push_tail_kept d init last c tail run,
    (
      record { init = init; last = c; parts = refl; fits = fits; inner = full; outer = p.0 },
      flat-snoc (suc d) (IsSpine A d) init c
          ∙ ap (λ t. flat (suc (suc d)) init ++ t) p.1
          ∙ sym (append_assoc (flat (suc (suc d)) init) (flat (suc d) last) tail)
          ∙ ap (λ t. t ++ tail) (sym (flat-snoc (suc d) (IsSpine A d) init last)),
      omega (arith, length-append init (c ∷ []), length-append init (last ∷ [])),
    ),
  )
  step-Pushed d init last tail fits full (c, some ex) run p = (
    expand (init ++ last ∷ []) ex,
    push_tail_expanded d init last c tail run,
    rw p.3 at (
        expand-Pushed (suc d) (IsSpine A d) (init ++ last ∷ []) ex
          (omega (arith, length-append init (last ∷ [])))
          (All-append (IsFull A (suc d)) init (last ∷ []) full (p.1, tt)) p.2),
  )

  pub push_tail-Pushed :
      (d : ℕ) (arr : VectorNode A (suc d)) (tail : List A)
      → IsSpine A d arr
      → length tail ≡ 32
      → (out : VectorNode A (suc d) × Option (VectorNode A (suc d))) × (push_tail d arr tail
          ≡ ok out)
        × PushedSpine d arr tail out
  push_tail-Pushed zero arr tail e h =
      push_tail-Pushed_bottom arr tail
        (omega (arith, ap length e.parts, length-append e.init (e.last ∷ []), e.fits))
        (subst (All (IsFull A 0)) (sym e.parts)
          (All-append (IsFull A 0) e.init (e.last ∷ []) e.inner (e.outer, tt)))
        h
  push_tail-Pushed (suc d) arr tail e h =
      let (res, run, p) = push_tail-Pushed d e.last tail e.outer h in
      subst (λ l. (out : _) × (push_tail (suc d) l tail ≡ ok out) × PushedSpine (suc d) l tail out)
        (sym e.parts) (step-Pushed d e.init e.last tail e.fits e.inner res run p)
