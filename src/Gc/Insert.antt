-- ===== src/Gc/Insert.antt =====
-- `gc_insert_object` of src/vm/core.c.
use saurus.Base.{
  ℕ, ◌+◌, ◌^◌, ◌<◌, ◌≡◌, ◌≢◌, ◌⊎◌, refl, ap, sym, subst, ◌∙◌, List, ◌∷◌, length, ◌==◌, Bool-cases,
  inl, inr, ok, All, arith,
}
use saurus.Gc.{flag_trans, Body, Object, GcState, children, deref, gc_insert_object}
use saurus.Gc.Flags.{ok-injective, addresses}
use saurus.Gc.Mark.{In}
use saurus.Gc.Cycle.{Ready}
use native.Mathlib.Nat.{mod-eq_of_lt}

-- What was there before is there with one more object at the front.
behind :
    (os : List Object) (n : Object) (c : ℕ)
    → (o : Object) × (deref os c ≡ ok o)
    → (o : Object) × (deref (n ∷ os) c ≡ ok o)
behind os n c h = elim (Bool-cases (c == n.address)) [
  | inl k ↦ (n, rw k refl)
  | inr k ↦ (h.0, rw k h.1)
]

-- An object that is read is the new one, or was there before.
front :
    (os : List Object) (n : Object) (p : ℕ) (o : Object)
    → deref (n ∷ os) p ≡ ok o
    → (n ≡ o) ⊎ (deref os p ≡ ok o)
front os n p o e = elim (Bool-cases (p == n.address)) [
  | inl k ↦ let e' : ok n ≡ ok o = (rw k at e) in inl (ok-injective e')
  | inr k ↦ inr (rw k at e)
]

-- A state between collections, of fewer than 2^32 - 1 objects, stays one when an object that refers to
-- objects only is inserted at a free address.
pub gc_insert_object-Ready :
    (s : GcState) (r : ℕ) (body : Body)
    → Ready s
    → length s.objects + 1 < 2 ^ 32
    → All (λ a. r ≢ a) (addresses s.objects)
    → ((c : ℕ) → In c (children body) → (o : Object) × (deref s.objects c ≡ ok o))
    → Ready (gc_insert_object s r body)
unfolding gc_insert_object
gc_insert_object-Ready s r body ready room free refers =
    let n : Object = record { address = r; flags = flag_trans; body = body } in
    record {
      closed = λ p o e c i. behind s.objects n c (elim (front s.objects n p o e) [
        | inl same ↦ refers c (subst (λ z. In c (children z.body)) (sym same) i)
        | inr e' ↦ ready.closed p o e' c i
      ]);
      rooted = λ c i. behind s.objects n c (ready.rooted c i);
      unmarked = λ p o e. elim (front s.objects n p o e) [
        | inl same ↦ inl (ap (λ z. z.flags) (sym same))
        | inr e' ↦ ready.unmarked p o e'
      ];
      distinct = (free, ready.distinct);
      counted = mod-eq_of_lt (omega (arith, ready.counted, room)) ∙ omega (arith, ready.counted);
      done = ready.done;
    }
