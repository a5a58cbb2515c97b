-- ===== src/Gc/Cycle.antt =====
-- What a collection of src/vm/gc.c keeps and frees, with room in the gray stack.
use saurus.Base.{
  ℕ, ◌+◌, ◌≤◌, ◌≡◌, ◌≢◌, ◌⊎◌, refl, ap, sym, subst, ◌∙◌, true, false, List, [], length, inl, inr,
  ok, fault, arith,
}
use saurus.Gc.{
  Flag, flag_trans, flag_white, flag_gray, flag_black, is_white, Object, GcState, children, deref,
  with_flags, Marking, gray_size, roots, begin, scan_all, sweep, end,
}
use saurus.Gc.Flags.{
  ok-injective, addresses, length-addresses, whites, whites_le, deref-address, with_flags_congr,
}
use saurus.Gc.Mark.{In, All-In, Reached, reached_root, reached_child, Marked, Inv}
use saurus.Gc.Gray.{gray_all-Inv}
use saurus.Gc.Scan.{Closed, Reached-white, scan-Inv}
use saurus.Gc.Sweep.{
  Distinct, deref-sweep_kept, deref-sweep_freed, deref-sweep_back, deref-addresses, sweep-Distinct,
  length-sweep,
}

-- A state between collections: no pointer that the collector follows dangles, no object is gray or
-- black, the gray stack is empty and `num_objects` counts the objects.
pub record Ready (s : GcState) : Type 0 where
  pub closed : Closed s.objects
  pub rooted : (c : ℕ) → In c (roots s) → (o : Object) × (deref s.objects c ≡ ok o)
  pub unmarked :
      (r : ℕ) (o : Object)
      → deref s.objects r ≡ ok o
      → (o.flags ≡ flag_trans) ⊎ (o.flags ≡ flag_white)
  pub distinct : Distinct (addresses s.objects)
  pub counted : s.num_objects ≡ length s.objects
  pub done : s.gray_stack ≡ []

-- What a collection is to do.
pub record Collected (s s' : GcState) : Type 0 where
  pub keeps :
      (r : ℕ) (o : Object)
      → deref s.objects r ≡ ok o
      → (o.flags ≡ flag_trans) ⊎ Reached s.objects (roots s) r
      → deref s'.objects r ≡ ok (with_flags o flag_white)
  pub frees :
      (r : ℕ) (o : Object)
      → deref s.objects r ≡ ok o
      → o.flags ≡ flag_white
      → ¬ Reached s.objects (roots s) r
      → deref s'.objects r ≡ fault
  pub origin :
      (r : ℕ) (o' : Object)
      → deref s'.objects r ≡ ok o'
      → (o : Object) × (deref s.objects r ≡ ok o)
        × (o' ≡ with_flags o flag_white)
        × ((o.flags ≡ flag_trans) ⊎ Reached s.objects (roots s) r)
  pub same_roots : roots s' ≡ roots s
  pub distinct : Distinct (addresses s'.objects)
  pub counted : s'.num_objects ≡ length s'.objects
  pub done : s'.gray_stack ≡ []
  pub fewer : length s'.objects ≤ length s.objects

flags_clash : (c : Flag) → (c ≡ flag_trans) ⊎ (c ≡ flag_white) → (c ≢ flag_gray) × (c ≢ flag_black)
flags_clash c (inl e) = (λ k. cc, λ k. cc)
flags_clash c (inr e) = (λ k. cc, λ k. cc)

module _ (s : GcState) (ready : Ready s) where
  abbrev rs : List ℕ
  rs = roots s

  start-Inv : Inv s.objects rs s.objects [] rs
  start-Inv = record {
    sees = λ r o0 e. (o0, e, refl, inl refl);
    stacked = tt;
    grays = λ r o e k. absurd ((flags_clash o.flags (ready.unmarked r o e)).0 k);
    blacks = λ r o e k c i. absurd ((flags_clash o.flags (ready.unmarked r o e)).1 k);
    rooted = λ c i. inr i;
    targets = All-In _ rs (λ c i. (ready.rooted c i, inl i));
  }

  module _ (os : List Object) (v : Inv s.objects rs os [] []) where
    -- Once the stack is empty, everything reached is marked.
    Reached-Marked : (r : ℕ) → Reached s.objects rs r → Marked s.objects rs os r
    Reached-Marked r (reached_root r' o i e w) = elim (v.rooted r i) [
      | inl m ↦ m
      | inr f ↦ absurd f
    ]
    Reached-Marked r (reached_child p o r' o' q e i e' w) =
        let (op, ep, nonwhite) = Reached-Marked p q in
        let (y, ey, b, t) = v.sees p o e in
        let same : op ≡ y = ok-injective (sym ep ∙ ey) in
        let black_child : op.flags ≡ flag_black → Marked s.objects rs os r = λ k.
          elim (v.blacks p op ep k r
            (subst (λ z. In r (children z)) (sym (ap (λ z. z.body) same ∙ b)) i)) [
              | inl m ↦ m
              | inr f ↦ absurd f
            ] in
        elim t [
          | inl k ↦
              let white : is_white op.flags ≡ true =
                ap (λ z. is_white z.flags) same
                ∙ ap is_white k
                ∙ Reached-white s.objects rs ready.closed p o q e in
              absurd (cc)
          | inr (w0, inl k, q') ↦ absurd (v.grays p op ep (ap (λ z. z.flags) same ∙ k))
          | inr (w0, inr k, q') ↦ black_child (ap (λ z. z.flags) same ∙ k)
        ]

    kept-object :
        (r : ℕ) (o : Object)
        → deref s.objects r ≡ ok o
        → (o.flags ≡ flag_trans) ⊎ Reached s.objects rs r
        → (y : Object) × (deref os r ≡ ok y) × (y.body ≡ o.body) × (is_white y.flags ≡ false)
    kept-object r o e (inl k) =
        let (y, ey, b, t) = v.sees r o e in
        elim t [
          | inl c ↦ (y, ey, b, ap is_white (c ∙ k))
          | inr (w0, c, q) ↦ let clash : true ≡ false = sym w0 ∙ ap is_white k in absurd (cc)
        ]
    kept-object r o e (inr q) =
        let (y, ey, b, t) = v.sees r o e in
        let (m, em, nonwhite) = Reached-Marked r q in
        (y, ey, b, ap (λ z. is_white z.flags) (ok-injective (sym ey ∙ em)) ∙ nonwhite)

    swept-keeps :
        (r : ℕ) (o : Object)
        → deref s.objects r ≡ ok o
        → (o.flags ≡ flag_trans) ⊎ Reached s.objects rs r
        → deref (sweep os) r ≡ ok (with_flags o flag_white)
    swept-keeps r o e k =
        let (y, ey, b, w) = kept-object r o e k in
        deref-sweep_kept os r y ey w
        ∙ ap ok (
            with_flags_congr y o flag_white
              (sym (deref-address os r y ey) ∙ deref-address s.objects r o e) b)

    swept-frees :
        (r : ℕ) (o : Object)
        → Distinct (addresses os)
        → deref s.objects r ≡ ok o
        → o.flags ≡ flag_white
        → ¬ Reached s.objects rs r
        → deref (sweep os) r ≡ fault
    swept-frees r o d e k ne =
        let (y, ey, b, t) = v.sees r o e in
        elim t [
          | inl c ↦ deref-sweep_freed os r y d ey (ap is_white (c ∙ k))
          | inr (w0, c, q) ↦ absurd (ne q)
        ]

    swept-origin :
        addresses os ≡ addresses s.objects
        → (r : ℕ) (o' : Object) → deref (sweep os) r ≡ ok o'
        → (o : Object) × (deref s.objects r ≡ ok o)
          × (o' ≡ with_flags o flag_white)
          × ((o.flags ≡ flag_trans) ⊎ Reached s.objects rs r)
    swept-origin places r o' e =
        let (y', ey', w, same) =
          deref-sweep_back os r o' (subst Distinct (sym places) ready.distinct) e in
        let (o, eo) = deref-addresses os s.objects r y' (sym places) ey' in
        let (y, ey, b, t) = v.sees r o eo in
        let y_eq : y' ≡ y = ok-injective (sym ey' ∙ ey) in
        let o_eq =
          same
          ∙ ap (λ z. with_flags z flag_white) y_eq
          ∙ with_flags_congr y o flag_white
              (sym (deref-address os r y ey) ∙ deref-address s.objects r o eo) b in
        elim t [
          | inr (w0, c, q) ↦ (o, eo, o_eq, inr q)
          | inl c ↦ elim (ready.unmarked r o eo) [
            | inl k ↦ (o, eo, o_eq, inl k)
            | inr k ↦
                let clash : false ≡ true =
                  sym w ∙ ap (λ z. is_white z.flags) y_eq ∙ ap is_white (c ∙ k) in
                absurd (cc)
          ]
        ]

    swept-Collected :
        addresses os ≡ addresses s.objects
        → Collected s (end s (record { objects = os; gray_stack = [] }))
    unfolding end
    swept-Collected places =
        let same_length : length os ≡ length s.objects =
          sym (length-addresses os) ∙ ap length places ∙ length-addresses s.objects in
        record {
          keeps = swept-keeps;
          frees = λ r o e k ne. swept-frees r o (subst Distinct (sym places) ready.distinct) e k ne;
          origin = swept-origin places;
          same_roots = refl;
          distinct = sweep-Distinct os (subst Distinct (sym places) ready.distinct);
          counted = omega (arith, ready.counted, length-sweep os, same_length);
          done = refl;
          fewer = omega (arith, length-sweep os, same_length);
        }

  -- Marking and sweeping, with room in the gray stack.
  pub mark-Collected :
      length s.objects ≤ gray_size
      → (m : Marking) × (begin s ≡ ok m)
        × (m' : Marking) × (scan_all m ≡ ok m')
        × Collected s (end s m')
  unfolding begin
  mark-Collected small =
      let few : whites s.objects ≤ gray_size = omega (arith, whites_le s.objects, small) in
      let (m, run, g) =
        gray_all-Inv s.objects rs (record { objects = s.objects; gray_stack = [] }) rs start-Inv
          (omega (arith, few)) in
      let (os, run', inv, places) =
        scan-Inv s.objects rs ready.closed (length m.gray_stack + length m.objects) m.objects
          m.gray_stack g.inv (omega (arith, g.load, few)) (omega (arith, whites_le m.objects)) in
      (
        m,
        run,
        record { objects = os; gray_stack = [] },
        run',
        swept-Collected os inv (places ∙ g.places),
      )
