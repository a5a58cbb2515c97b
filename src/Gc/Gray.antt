-- ===== src/Gc/Gray.antt =====
-- `add_to_gray` of src/vm/gc.c keeps the invariant of marking.
use saurus.Base.{
  ℕ, ◌+◌, ◌≤◌, ◌≡◌, refl, ap, ◌∙◌, List, [], ◌∷◌, length, lt→ltb, Bool-cases, inl, inr, ok, ◌>>=◌,
  arith,
}
use saurus.Gc.{flag_gray, is_white, Object, set_flags, Marking, add_to_gray, gray_all, gray_size}
use saurus.Gc.Flags.{addresses, addresses-set_flags, whites, whites-gray}
use saurus.Gc.Mark.{Inv, push-Inv, pass-Inv, Turned-white}

module _ (os0 : List Object) (rs : List ℕ) where
  -- The gray stack has room for the objects that are still white.
  pub record Grayed (os : List Object) (stack pending : List ℕ) (m : Marking) : Type 0 where
    pub inv : Inv os0 rs m.objects m.gray_stack pending
    pub load : length m.gray_stack + whites m.objects ≡ length stack + whites os
    pub places : addresses m.objects ≡ addresses os

  pub add_to_gray-Inv :
      (os : List Object) (stack : List ℕ) (p : ℕ) (ps : List ℕ)
      → Inv os0 rs os stack (p ∷ ps)
      → length stack + whites os ≤ gray_size
      → (m : Marking) × (add_to_gray (record { objects = os; gray_stack = stack }) p ≡ ok m)
        × Grayed os stack ps m
  unfolding add_to_gray
  add_to_gray-Inv os stack p ps v small =
      let (o0, e0) = v.targets.0.0 in
      let (o, e, b, t) = v.sees p o0 e0 in
      elim (Bool-cases (is_white o.flags)) [
        | inl w ↦
            let one = whites-gray os p o e w in
            (
              record { objects = set_flags os p flag_gray; gray_stack = p ∷ stack },
              rw (e, w, lt→ltb (length stack) 512 (omega (arith, one, small))) refl,
              record {
                inv =
                    push-Inv os0 rs os stack p ps o0 o v e0 e
                      (Turned-white os0 rs p o0.flags o.flags t w);
                load = omega (arith, one);
                places = addresses-set_flags os p flag_gray;
              },
            )
        | inr w ↦ (
          record { objects = os; gray_stack = stack },
          rw (e, w) refl,
          record { inv = pass-Inv os0 rs os stack p ps v (o, e, w); load = refl; places = refl },
        )
      ]

  pub gray_all-Inv :
      (m : Marking) (ps : List ℕ)
      → Inv os0 rs m.objects m.gray_stack ps
      → length m.gray_stack + whites m.objects ≤ gray_size
      → (m' : Marking) × (gray_all m ps ≡ ok m') × Grayed m.objects m.gray_stack [] m'
  unfolding gray_all
  gray_all-Inv m [] v small = (m, refl, record { inv = v; load = refl; places = refl })
  gray_all-Inv m (p ∷ ps) v small =
      let (m1, run1, g1) = add_to_gray-Inv m.objects m.gray_stack p ps v small in
      let (m2, run2, g2) = gray_all-Inv m1 ps g1.inv (omega (arith, g1.load, small)) in
      (
        m2,
        ap (λ x. x >>= λ y. gray_all y ps) run1 ∙ run2,
        record { inv = g2.inv; load = g2.load ∙ g1.load; places = g2.places ∙ g1.places },
      )
