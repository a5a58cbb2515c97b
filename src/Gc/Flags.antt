-- ===== src/Gc/Flags.antt =====
-- Reads of the objects of src/vm/gc.c after the flags of one were set.
use saurus.Base.{
  ℕ, suc, ◌+◌, ◌≤◌, ◌≡◌, ◌≢◌, refl, ap, ap₂, sym, ◌∙◌, true, false, List, [], ◌∷◌, length, ◌==◌,
  ==_iff, ==-ne, Bool-cases, inl, inr, if◌then◌else◌, ok, arith,
}
use saurus.Gc.{Flag, flag_gray, flag_black, is_white, Object, deref, with_flags, set_flags}

pub ok-injective {ℓ} : {A : Type ℓ} {a b : A} → ok a ≡ ok b → a ≡ b
ok-injective e = cc

pub deref-set_flags_same :
    (os : List Object) (r : ℕ) (c : Flag) (o : Object)
    → deref os r ≡ ok o
    → deref (set_flags os r c) r ≡ ok (with_flags o c)
deref-set_flags_same [] r c o e = absurd (cc)
deref-set_flags_same (p ∷ os) r c o e = elim (Bool-cases (r == p.address)) [
  | inl k ↦
      let e' : ok p ≡ ok o = (rw k at e) in
      rw (k, k) (ap (λ x. ok (with_flags x c)) (ok-injective e'))
  | inr k ↦ rw (k, k) (deref-set_flags_same os r c o (rw k at e))
]

pub deref-set_flags_other :
    (os : List Object) (r q : ℕ) (c : Flag) → q ≢ r → deref (set_flags os r c) q ≡ deref os q
deref-set_flags_other [] r q c ne = refl
deref-set_flags_other (p ∷ os) r q c ne = elim (Bool-cases (r == p.address)) [
  | inl k ↦
      let here = (==_iff r p.address).0 k in rw (k, ==-ne q p.address (λ t. ne (t ∙ sym here))) refl
  | inr k ↦ rw k (ap (λ x. if q == p.address then ok p else x) (deref-set_flags_other os r q c ne))
]

abbrev pub addresses : List Object → List ℕ
addresses [] = []
addresses (o ∷ os) = o.address ∷ addresses os

pub length-addresses : (os : List Object) → length (addresses os) ≡ length os
length-addresses [] = refl
length-addresses (o ∷ os) = ap suc (length-addresses os)

pub addresses-set_flags :
    (os : List Object) (r : ℕ) (c : Flag) → addresses (set_flags os r c) ≡ addresses os
addresses-set_flags [] r c = refl
addresses-set_flags (p ∷ os) r c = elim (Bool-cases (r == p.address)) [
  | inl k ↦ rw k refl
  | inr k ↦ rw k (ap (λ x. p.address ∷ x) (addresses-set_flags os r c))
]

-- How many objects are white.
unfoldable pub whites : List Object → ℕ
whites [] = 0
whites (o ∷ os) = let rest = whites os in if is_white o.flags then suc rest else rest

pub whites_le : (os : List Object) → whites os ≤ length os
unfolding whites
whites_le [] = omega arith
whites_le (o ∷ os) = elim (Bool-cases (is_white o.flags)) [
  | inl k ↦ rw k (omega (arith, whites_le os))
  | inr k ↦ rw k (omega (arith, whites_le os))
]

pub whites-gray :
    (os : List Object) (r : ℕ) (o : Object)
    → deref os r ≡ ok o
    → is_white o.flags ≡ true
    → whites (set_flags os r flag_gray) + 1 ≡ whites os
unfolding whites
whites-gray [] r o e w = absurd (cc)
whites-gray (p ∷ os) r o e w = elim (Bool-cases (r == p.address)) [
  | inl k ↦
      let e' : ok p ≡ ok o = (rw k at e) in
      let w' : is_white p.flags ≡ true = ap (λ x. is_white x.flags) (ok-injective e') ∙ w in
      rw (k, w') (omega arith)
  | inr k ↦
      let ih = whites-gray os r o (rw k at e) w in
      elim (Bool-cases (is_white p.flags)) [
        | inl v ↦ rw (k, v) (omega (arith, ih))
        | inr v ↦ rw (k, v) ih
      ]
]

pub whites-black :
    (os : List Object) (r : ℕ) (o : Object)
    → deref os r ≡ ok o
    → is_white o.flags ≡ false
    → whites (set_flags os r flag_black) ≡ whites os
unfolding whites
whites-black [] r o e w = absurd (cc)
whites-black (p ∷ os) r o e w = elim (Bool-cases (r == p.address)) [
  | inl k ↦
      let e' : ok p ≡ ok o = (rw k at e) in
      let w' : is_white p.flags ≡ false = ap (λ x. is_white x.flags) (ok-injective e') ∙ w in
      rw (k, w') refl
  | inr k ↦
      let ih = whites-black os r o (rw k at e) w in
      elim (Bool-cases (is_white p.flags)) [ inl v ↦ rw (k, v) (ap suc ih) | inr v ↦ rw (k, v) ih ]
]

pub deref-address : (os : List Object) (r : ℕ) (o : Object) → deref os r ≡ ok o → r ≡ o.address
deref-address [] r o e = absurd (cc)
deref-address (p ∷ os) r o e = elim (Bool-cases (r == p.address)) [
  | inl k ↦
      let e' : ok p ≡ ok o = (rw k at e) in
      (==_iff r p.address).0 k ∙ ap (λ x. x.address) (ok-injective e')
  | inr k ↦ deref-address os r o (rw k at e)
]

pub with_flags_congr :
    (a b : Object) (c : Flag)
    → a.address ≡ b.address
    → a.body ≡ b.body
    → with_flags a c ≡ with_flags b c
with_flags_congr a b c e k = ap₂ (λ x y. record { address = x; flags = c; body = y }) e k
