-- ===== src/Gc/Scan.antt =====
-- `scan` of src/vm/gc.c empties the gray stack and keeps the invariant of marking.
use saurus.Base.{
  ℕ, zero, suc, ◌+◌, ◌≤◌, ◌≡◌, refl, ap, sym, subst, ◌∙◌, true, false, List, [], ◌∷◌, length,
  Bool-cases, inl, inr, Run, ok, ◌>>=◌, All-map, arith,
}
use saurus.Gc.{
  Flag, flag_trans, flag_white, flag_gray, flag_black, is_white, is_black, Object, children, deref,
  with_flags, set_flags, Marking, gray_all, gray_size, scan,
}
use saurus.Gc.Flags.{
  ok-injective, deref-set_flags_same, deref-set_flags_other, addresses, addresses-set_flags, whites,
  whites-black,
}
use saurus.Gc.Mark.{
  In, All-In, Reached, reached_root, reached_child, Marked, Inv, Marked-set_flags, sees-set_flags,
}
use saurus.Gc.Gray.{gray_all-Inv}
use native.Mathlib.Decide.{ℕ_discrete}

pub is_black-eq : (c : Flag) → is_black c ≡ true → c ≡ flag_black
is_black-eq flag_trans e = absurd (cc)
is_black-eq flag_white e = absurd (cc)
is_black-eq flag_gray e = absurd (cc)
is_black-eq flag_black e = refl

abbrev pub gray_children : ℕ → List Object → ℕ → List ℕ → Object → Run Marking
gray_children f os r rest o =
    gray_all (record { objects = set_flags os r flag_black; gray_stack = rest }) (children o.body)
    >>= λ m. scan f m.objects m.gray_stack

-- A turn of the loop.
pub scan-black :
    (f : ℕ) (os : List Object) (r : ℕ) (rest : List ℕ) (o : Object)
    → deref os r ≡ ok o
    → is_black o.flags ≡ true
    → scan (suc f) os (r ∷ rest) ≡ scan f os rest
unfolding scan
scan-black f os r rest o e k =
    ap
      (λ x. x >>= λ o'. elim (is_black o'.flags) [
        | true ↦ scan f os rest
        | false ↦ gray_children f os r rest o'
      ])
      e
    ∙ ap (λ b. elim b [ true ↦ scan f os rest | false ↦ gray_children f os r rest o ]) k

pub scan-children :
    (f : ℕ) (os : List Object) (r : ℕ) (rest : List ℕ) (o : Object)
    → deref os r ≡ ok o
    → is_black o.flags ≡ false
    → scan (suc f) os (r ∷ rest) ≡ gray_children f os r rest o
unfolding scan
scan-children f os r rest o e k =
    ap
      (λ x. x >>= λ o'. elim (is_black o'.flags) [
        | true ↦ scan f os rest
        | false ↦ gray_children f os r rest o'
      ])
      e
    ∙ ap (λ b. elim b [ true ↦ scan f os rest | false ↦ gray_children f os r rest o ]) k

-- Every reference in an object is to an object.
abbrev pub Closed : List Object → Type 0
Closed os =
    (p : ℕ) (o : Object)
    → deref os p ≡ ok o
    → (c : ℕ) → In c (children o.body)
    → (o' : Object) × (deref os c ≡ ok o')

module _ (os0 : List Object) (rs : List ℕ) (closed : Closed os0) where
  pub Reached-white :
      (r : ℕ) (o : Object) → Reached os0 rs r → deref os0 r ≡ ok o → is_white o.flags ≡ true
  Reached-white r o (reached_root r' o' i e w) k =
      ap (λ x. is_white x.flags) (ok-injective (sym k ∙ e)) ∙ w
  Reached-white r o (reached_child p o1 r' o' q e1 i e w) k =
      ap (λ x. is_white x.flags) (ok-injective (sym k ∙ e)) ∙ w

  -- A black object leaves the stack.
  pub skip-Inv :
      (os : List Object) (r : ℕ) (rest : List ℕ) (o : Object)
      → Inv os0 rs os (r ∷ rest) []
      → deref os r ≡ ok o
      → o.flags ≡ flag_black
      → Inv os0 rs os rest []
  skip-Inv os r rest o v e k = record {
    sees = v.sees;
    stacked = v.stacked.1;
    grays = λ q x ex g. elim (v.grays q x ex g) [
      | inl q_eq ↦
          let same : x ≡ o = ok-injective (sym ex ∙ ap (deref os) q_eq ∙ e) in
          let clash : flag_gray ≡ flag_black = sym g ∙ ap (λ z. z.flags) same ∙ k in absurd (cc)
      | inr i ↦ i
    ];
    blacks = v.blacks;
    rooted = v.rooted;
    targets = tt;
  }

  -- Any other turns black, and its children are to be marked.
  pub blacken-Inv :
      (os : List Object) (r : ℕ) (rest : List ℕ) (o : Object)
      → Inv os0 rs os (r ∷ rest) []
      → deref os r ≡ ok o
      → Inv os0 rs (set_flags os r flag_black) rest (children o.body)
  blacken-Inv os r rest o v e =
      let ((o0, e0), reach, m) = v.stacked.0 in
      let (y, ey, b, t) = v.sees r o0 e0 in
      let body_eq : o.body ≡ o0.body = ap (λ z. z.body) (ok-injective (sym e ∙ ey)) ∙ b in
      let os' = set_flags os r flag_black in
      let keep : (c : ℕ) → Marked os0 rs os c → Marked os0 rs os' c =
        Marked-set_flags os0 rs os r o flag_black e refl in
      record {
        sees =
            sees-set_flags os0 rs os r o0 o flag_black v.sees e0 e (Reached-white r o0 reach e0)
              (inr refl) reach;
        stacked = All-map _ _ (λ q t'. (t'.0, t'.1, keep q t'.2)) rest v.stacked.1;
        grays = λ q x ex g. elim (ℕ_discrete q r) [
          | yes q_eq ↦
              let black : with_flags o flag_black ≡ x =
                ok-injective (
                  sym (deref-set_flags_same os r flag_black o e)
                  ∙ ap (deref os') (sym q_eq)
                  ∙ ex) in
              let clash : flag_black ≡ flag_gray = ap (λ z. z.flags) black ∙ g in absurd (cc)
          | no ne ↦ elim (v.grays q x (sym (deref-set_flags_other os r q flag_black ne) ∙ ex) g) [
            | inl q_eq ↦ absurd (ne q_eq)
            | inr i ↦ i
          ]
        ];
        blacks = λ q x ex k c i. elim (ℕ_discrete q r) [
          | yes q_eq ↦
              let black : with_flags o flag_black ≡ x =
                ok-injective (
                  sym (deref-set_flags_same os r flag_black o e)
                  ∙ ap (deref os') (sym q_eq)
                  ∙ ex) in
              inr (subst (λ z. In c (children z.body)) (sym black) i)
          | no ne ↦
              elim (v.blacks q x (sym (deref-set_flags_other os r q flag_black ne) ∙ ex) k c i) [
                | inl m' ↦ inl (keep c m')
                | inr f ↦ absurd f
              ]
        ];
        rooted = λ c i. elim (v.rooted c i) [ inl m' ↦ inl (keep c m') | inr f ↦ absurd f ];
        targets = All-In _ (children o.body) (λ c i.
            let i0 : In c (children o0.body) = subst (λ z. In c (children z)) body_eq i in
            (closed r o0 e0 c i0, inr (r, o0, reach, e0, i0)));
      }

  -- A turn of the loop takes one from the load.
  pub scan-Inv :
      (f : ℕ) (os : List Object) (stack : List ℕ)
      → Inv os0 rs os stack []
      → length stack + whites os ≤ gray_size
      → length stack + whites os ≤ f
      → (os' : List Object) × (scan f os stack ≡ ok (record { objects = os'; gray_stack = [] }))
        × Inv os0 rs os' [] []
        × (addresses os' ≡ addresses os)
  unfolding scan
  scan-Inv f os [] v small enough = (os, refl, v, refl)
  scan-Inv zero os (r ∷ rest) v small enough = absurd (omega (arith, enough))
  scan-Inv (suc f) os (r ∷ rest) v small enough =
      let (o, e, w) = v.stacked.0.2 in
      elim (Bool-cases (is_black o.flags)) [
        | inl k ↦
            let v' = skip-Inv os r rest o v e (is_black-eq o.flags k) in
            let (os', run, inv, places) =
              scan-Inv f os rest v' (omega (arith, small)) (omega (arith, enough)) in
            (os', scan-black f os r rest o e k ∙ run, inv, places)
        | inr k ↦
            let same_whites = whites-black os r o e w in
            let (m, run, g) =
              gray_all-Inv os0 rs
                (record { objects = set_flags os r flag_black; gray_stack = rest })
                (children o.body) (blacken-Inv os r rest o v e)
                (omega (arith, same_whites, small)) in
            let (os', run', inv, places) =
              scan-Inv f m.objects m.gray_stack g.inv (omega (arith, g.load, same_whites, small))
                (omega (arith, g.load, same_whites, enough)) in
            (
              os',
              scan-children f os r rest o e k
                  ∙ ap (λ x. x >>= λ y. scan f y.objects y.gray_stack) run
                  ∙ run',
              inv,
              places ∙ g.places ∙ addresses-set_flags os r flag_black,
            )
      ]
