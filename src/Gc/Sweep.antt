-- ===== src/Gc/Sweep.antt =====
-- `end` of src/vm/gc.c frees the white objects and makes the others white.
use saurus.Base.{
  ℕ, ◌+◌, ◌≡◌, ◌≢◌, refl, ap, sym, ◌∙◌, true, false, List, [], ◌∷◌, length, ◌==◌, ==_iff, ==-ne,
  Bool-cases, inl, inr, ok, fault, All, arith,
}
use saurus.Gc.{flag_white, is_white, Object, deref, with_flags, sweep, freed}
use saurus.Gc.Flags.{ok-injective, addresses}

-- No address stands twice.
abbrev pub Distinct : List ℕ → Type 0
Distinct [] = Unit
Distinct (p ∷ ps) = All (λ q. p ≢ q) ps × Distinct ps

pub deref-sweep_kept :
    (os : List Object) (r : ℕ) (o : Object)
    → deref os r ≡ ok o
    → is_white o.flags ≡ false
    → deref (sweep os) r ≡ ok (with_flags o flag_white)
unfolding sweep
deref-sweep_kept [] r o e w = absurd (cc)
deref-sweep_kept (p ∷ os) r o e w = elim (Bool-cases (r == p.address)) [
  | inl k ↦
      let e' : ok p ≡ ok o = (rw k at e) in
      let same = ok-injective e' in
      let w' : is_white p.flags ≡ false = ap (λ x. is_white x.flags) same ∙ w in
      rw w' (rw k (ap (λ x. ok (with_flags x flag_white)) same))
  | inr k ↦
      let ih = deref-sweep_kept os r o (rw k at e) w in
      elim (Bool-cases (is_white p.flags)) [ inl v ↦ rw v ih | inr v ↦ rw v (rw k ih) ]
]

deref-sweep_absent :
    (os : List Object) (r : ℕ) → All (λ a. r ≢ a) (addresses os) → deref (sweep os) r ≡ fault
unfolding sweep
deref-sweep_absent [] r a = refl
deref-sweep_absent (p ∷ os) r a =
    let ih = deref-sweep_absent os r a.1 in
    elim (Bool-cases (is_white p.flags)) [
      | inl v ↦ rw v ih
      | inr v ↦ rw v (rw (==-ne r p.address a.0) ih)
    ]

pub deref-sweep_freed :
    (os : List Object) (r : ℕ) (o : Object)
    → Distinct (addresses os)
    → deref os r ≡ ok o
    → is_white o.flags ≡ true
    → deref (sweep os) r ≡ fault
unfolding sweep
deref-sweep_freed [] r o d e w = absurd (cc)
deref-sweep_freed (p ∷ os) r o d e w = elim (Bool-cases (r == p.address)) [
  | inl k ↦
      let e' : ok p ≡ ok o = (rw k at e) in
      let w' : is_white p.flags ≡ true = ap (λ x. is_white x.flags) (ok-injective e') ∙ w in
      rw w' (rw ((==_iff r p.address).0 k) (deref-sweep_absent os p.address d.0))
  | inr k ↦
      let ih = deref-sweep_freed os r o d.1 (rw k at e) w in
      elim (Bool-cases (is_white p.flags)) [ inl v ↦ rw v ih | inr v ↦ rw v (rw k ih) ]
]

pub length-sweep : (os : List Object) → length (sweep os) + freed os ≡ length os
unfolding sweep freed
length-sweep [] = refl
length-sweep (o ∷ os) = elim (Bool-cases (is_white o.flags)) [
  | inl v ↦ rw v (omega (arith, length-sweep os))
  | inr v ↦ rw v (omega (arith, length-sweep os))
]

pub deref-sweep_back :
    (os : List Object) (r : ℕ) (o' : Object)
    → Distinct (addresses os)
    → deref (sweep os) r ≡ ok o'
    → (o : Object) × (deref os r ≡ ok o)
      × (is_white o.flags ≡ false)
      × (o' ≡ with_flags o flag_white)
unfolding sweep
deref-sweep_back [] r o' d e = absurd (cc)
deref-sweep_back (p ∷ os) r o' d e = elim (Bool-cases (r == p.address)) [
  | inl k ↦ elim (Bool-cases (is_white p.flags)) [
    | inl w ↦
        let gone : deref (sweep os) r ≡ fault =
          rw ((==_iff r p.address).0 k) (deref-sweep_absent os p.address d.0) in
        let e' : deref (sweep os) r ≡ ok o' = (rw w at e) in
        let clash : fault ≡ ok o' = sym gone ∙ e' in absurd (cc)
    | inr w ↦
        let e' : ok (with_flags p flag_white) ≡ ok o' = (rw (w, k) at e) in
        (p, rw k refl, w, sym (ok-injective e'))
  ]
  | inr k ↦
      let e' : deref (sweep os) r ≡ ok o' = elim (Bool-cases (is_white p.flags)) [
        | inl w ↦ (rw w at e)
        | inr w ↦ (rw (w, k) at e)
      ] in
      let (o, eo, w, same) = deref-sweep_back os r o' d.1 e' in (o, rw k eo, w, same)
]

sweep-All :
    (P : ℕ → Type 0) (os : List Object) → All P (addresses os) → All P (addresses (sweep os))
unfolding sweep
sweep-All P [] a = tt
sweep-All P (o ∷ os) a = elim (Bool-cases (is_white o.flags)) [
  | inl w ↦ rw w (sweep-All P os a.1)
  | inr w ↦ rw w (a.0, sweep-All P os a.1)
]

pub sweep-Distinct : (os : List Object) → Distinct (addresses os) → Distinct (addresses (sweep os))
unfolding sweep
sweep-Distinct [] d = tt
sweep-Distinct (o ∷ os) d = elim (Bool-cases (is_white o.flags)) [
  | inl w ↦ rw w (sweep-Distinct os d.1)
  | inr w ↦ rw w (sweep-All (λ q. o.address ≢ q) os d.0, sweep-Distinct os d.1)
]

-- An object at an address is there whatever its flags.
pub deref-addresses :
    (os qs : List Object) (r : ℕ) (o : Object)
    → addresses qs ≡ addresses os
    → deref os r ≡ ok o
    → (q : Object) × (deref qs r ≡ ok q)
deref-addresses [] qs r o a e = absurd (cc)
deref-addresses (p ∷ os) [] r o a e = absurd (cc)
deref-addresses (p ∷ os) (q ∷ qs) r o a e =
    let here : q.address ≡ p.address = cc in
    elim (Bool-cases (r == p.address)) [
      | inl k ↦ (q, rw (here, k) refl)
      | inr k ↦ let (x, ex) = deref-addresses os qs r o (cc) (rw k at e) in (x, rw (here, k) ex)
    ]
