-- ===== src/Gc/Mark.antt =====
-- The invariant of marking in src/vm/gc.c.
use saurus.Base.{
  ℕ, ◌≡◌, ◌⊎◌, refl, ap, sym, subst, ◌∙◌, true, false, List, [], ◌∷◌, ◌==◌, Bool-cases, inl, inr,
  ok, All, All-map,
}
use saurus.Gc.{
  Flag, flag_gray, flag_black, is_white, Object, children, deref, with_flags, set_flags,
}
use saurus.Gc.Flags.{ok-injective, deref-set_flags_same, deref-set_flags_other}
use native.Mathlib.Decide.{ℕ_discrete}

abbrev pub In : ℕ → List ℕ → Type 0
In r [] = ⊥
In r (x ∷ xs) = (r ≡ x) ⊎ In r xs

pub All-In : (P : ℕ → Type 0) (xs : List ℕ) → ((c : ℕ) → In c xs → P c) → All P xs
All-In P [] f = tt
All-In P (x ∷ xs) f = (f x (inl refl), All-In P xs (λ c i. f c (inr i)))

-- Reached from the roots through white objects only, itself one.
pub data Reached (os : List Object) (rs : List ℕ) : ℕ → Type 0 where
  reached_root :
      (r : ℕ) (o : Object) → In r rs → deref os r ≡ ok o → is_white o.flags ≡ true → Reached os rs r
  reached_child :
      (p : ℕ) (o : Object) (r : ℕ) (o' : Object)
      → Reached os rs p
      → deref os p ≡ ok o
      → In r (children o.body)
      → deref os r ≡ ok o'
      → is_white o'.flags ≡ true
      → Reached os rs r

module _ (os0 : List Object) (rs : List ℕ) where
  abbrev pub Resolves : ℕ → Type 0
  Resolves c = (o : Object) × (deref os0 c ≡ ok o)

  -- Marking comes to it if it is white.
  abbrev pub Target : ℕ → Type 0
  Target r =
      In r rs
      ⊎ ((p : ℕ) × (o : Object) × Reached os0 rs p × (deref os0 p ≡ ok o) × In r (children o.body))

  pub Target-Reached :
      (r : ℕ) (o : Object)
      → Target r
      → deref os0 r ≡ ok o
      → is_white o.flags ≡ true
      → Reached os0 rs r
  Target-Reached r o (inl i) e w = reached_root r o i e w
  Target-Reached r o (inr (p, o', q, e', i)) e w = reached_child p o' r o q e' i e w

  -- The flags of an object at the start and now.
  abbrev pub Turned : ℕ → Flag → Flag → Type 0
  Turned r c0 c =
      (c ≡ c0) ⊎ ((is_white c0 ≡ true) × ((c ≡ flag_gray) ⊎ (c ≡ flag_black)) × Reached os0 rs r)

  pub Turned-white : (r : ℕ) (c0 c : Flag) → Turned r c0 c → is_white c ≡ true → is_white c0 ≡ true
  Turned-white r c0 c (inl e) w = ap is_white (sym e) ∙ w
  Turned-white r c0 c (inr t) w = t.0

  abbrev pub Marked : List Object → ℕ → Type 0
  Marked os c = (o : Object) × (deref os c ≡ ok o) × (is_white o.flags ≡ false)

  -- `pending` are the calls of `add_to_gray` that are still to come.
  pub record Inv (os : List Object) (stack pending : List ℕ) : Type 0 where
    pub sees :
        (r : ℕ) (o0 : Object)
        → deref os0 r ≡ ok o0
        → (o : Object) × (deref os r ≡ ok o) × (o.body ≡ o0.body) × Turned r o0.flags o.flags
    pub stacked : All (λ r. Resolves r × Reached os0 rs r × Marked os r) stack
    pub grays : (r : ℕ) (o : Object) → deref os r ≡ ok o → o.flags ≡ flag_gray → In r stack
    pub blacks :
        (r : ℕ) (o : Object)
        → deref os r ≡ ok o
        → o.flags ≡ flag_black
        → (c : ℕ) → In c (children o.body)
        → Marked os c ⊎ In c pending
    pub rooted : (c : ℕ) → In c rs → Marked os c ⊎ In c pending
    pub targets : All (λ c. Resolves c × Target c) pending

  -- An object stays marked when another, or it, is.
  pub Marked-set_flags :
      (os : List Object) (p : ℕ) (o : Object) (c : Flag)
      → deref os p ≡ ok o
      → is_white c ≡ false
      → (q : ℕ) → Marked os q
      → Marked (set_flags os p c) q
  Marked-set_flags os p o c e w q m = elim (ℕ_discrete q p) [
    | yes k ↦ (with_flags o c, ap (deref (set_flags os p c)) k ∙ deref-set_flags_same os p c o e, w)
    | no k ↦ (m.0, deref-set_flags_other os p q c k ∙ m.1, m.2)
  ]

  -- What an object looks like after the flags of a reached one were set.
  pub sees-set_flags :
      (os : List Object) (p : ℕ) (o0 o : Object) (c : Flag)
      → ((r : ℕ) (x : Object)
          → deref os0 r ≡ ok x
          → (y : Object) × (deref os r ≡ ok y) × (y.body ≡ x.body) × Turned r x.flags y.flags)
      → deref os0 p ≡ ok o0
      → deref os p ≡ ok o
      → is_white o0.flags ≡ true
      → (c ≡ flag_gray) ⊎ (c ≡ flag_black)
      → Reached os0 rs p
      → (r : ℕ) (x : Object) → deref os0 r ≡ ok x
      → (y : Object) × (deref (set_flags os p c) r ≡ ok y)
        × (y.body ≡ x.body)
        × Turned r x.flags y.flags
  sees-set_flags os p o0 o c sees e0 e w k q r x ex =
      let (y, ey, b, t) = sees r x ex in
      elim (ℕ_discrete r p) [
        | yes r_eq ↦
            let ep : deref os p ≡ ok y = ap (deref os) (sym r_eq) ∙ ey in
            let e0r : deref os0 r ≡ ok o0 = ap (deref os0) r_eq ∙ e0 in
            let same : x ≡ o0 = ok-injective (sym ex ∙ e0r) in
            (
              with_flags y c,
              ap (deref (set_flags os p c)) r_eq ∙ deref-set_flags_same os p c y ep,
              b,
              inr (ap (λ z. is_white z.flags) same ∙ w, k, subst (Reached os0 rs) (sym r_eq) q),
            )
        | no ne ↦ (y, deref-set_flags_other os p r c ne ∙ ey, b, t)
      ]

  settle :
      (os : List Object) (p c : ℕ) (ps : List ℕ)
      → Marked os p
      → Marked os c ⊎ In c (p ∷ ps)
      → Marked os c ⊎ In c ps
  settle os p c ps m (inl k) = inl k
  settle os p c ps m (inr (inl e)) = inl (m.0, ap (deref os) e ∙ m.1, m.2)
  settle os p c ps m (inr (inr i)) = inr i

  carry :
      (os : List Object) (p : ℕ) (o : Object) (f : Flag)
      → deref os p ≡ ok o
      → is_white f ≡ false
      → (c : ℕ) (ps : List ℕ) → Marked os c ⊎ In c ps
      → Marked (set_flags os p f) c ⊎ In c ps
  carry os p o f e w c ps (inl m) = inl (Marked-set_flags os p o f e w c m)
  carry os p o f e w c ps (inr i) = inr i

  -- `p` has been marked before.
  pub pass-Inv :
      (os : List Object) (stack : List ℕ) (p : ℕ) (ps : List ℕ)
      → Inv os stack (p ∷ ps)
      → Marked os p
      → Inv os stack ps
  pass-Inv os stack p ps v m = record {
    sees = v.sees;
    stacked = v.stacked;
    grays = v.grays;
    blacks = λ r o e k c i. settle os p c ps m (v.blacks r o e k c i);
    rooted = λ c i. settle os p c ps m (v.rooted c i);
    targets = v.targets.1;
  }

  -- `p` is marked now.
  pub push-Inv :
      (os : List Object) (stack : List ℕ) (p : ℕ) (ps : List ℕ) (o0 o : Object)
      → Inv os stack (p ∷ ps)
      → deref os0 p ≡ ok o0
      → deref os p ≡ ok o
      → is_white o0.flags ≡ true
      → Inv (set_flags os p flag_gray) (p ∷ stack) ps
  push-Inv os stack p ps o0 o v e0 e w =
      let reach = Target-Reached p o0 v.targets.0.1 e0 w in
      let here : Marked (set_flags os p flag_gray) p =
        (with_flags o flag_gray, deref-set_flags_same os p flag_gray o e, refl) in
      record {
        sees = sees-set_flags os p o0 o flag_gray v.sees e0 e w (inl refl) reach;
        stacked = (
          ((o0, e0), reach, here),
          All-map _ _ (λ r t. (t.0, t.1, Marked-set_flags os p o flag_gray e refl r t.2)) stack
              v.stacked,
        );
        grays = λ r x ex k. elim (ℕ_discrete r p) [
          | yes r_eq ↦ inl r_eq
          | no ne ↦ inr (v.grays r x (sym (deref-set_flags_other os p r flag_gray ne) ∙ ex) k)
        ];
        blacks = λ r x ex k c i. elim (ℕ_discrete r p) [
          | yes r_eq ↦
              let gray : with_flags o flag_gray ≡ x = ok-injective (
                sym (deref-set_flags_same os p flag_gray o e)
                ∙ ap (deref (set_flags os p flag_gray)) (sym r_eq)
                ∙ ex) in
              let clash : flag_gray ≡ flag_black = ap (λ z. z.flags) gray ∙ k in absurd (cc)
          | no ne ↦ settle (set_flags os p flag_gray) p c ps here (
              carry os p o flag_gray e refl c (p ∷ ps)
                (v.blacks r x (sym (deref-set_flags_other os p r flag_gray ne) ∙ ex) k c i))
        ];
        rooted = λ c i.
            settle (set_flags os p flag_gray) p c ps here
              (carry os p o flag_gray e refl c (p ∷ ps) (v.rooted c i));
        targets = v.targets.1;
      }

-- What holds of every object holds of one that is read.
pub deref-All :
    (P : Object → Type 0) (os : List Object) (r : ℕ) (o : Object)
    → All P os
    → deref os r ≡ ok o
    → P o
deref-All P [] r o a e = absurd (cc)
deref-All P (p ∷ os) r o a e = elim (Bool-cases (r == p.address)) [
  | inl k ↦ let e' : ok p ≡ ok o = (rw k at e) in subst P (ok-injective e') a.0
  | inr k ↦ deref-All P os r o a.1 (rw k at e)
]

pub In-All : (P : ℕ → Type 0) (xs : List ℕ) (c : ℕ) → All P xs → In c xs → P c
In-All P [] c a i = absurd i
In-All P (x ∷ xs) c a (inl e) = subst P (sym e) a.0
In-All P (x ∷ xs) c a (inr i) = In-All P xs c a.1 i
