-- ===== src/Vector/Writes.antt =====
-- A write into a concatenation of chunks of one size: it changes chunk `j / S` at `j % S`. This is
-- what the copying `insert` of src/vm/seq.c does at each level of a vector.
use saurus.Base.{
  concat_map, ℕ, suc, ◌+◌, ◌-◌, ◌/◌, ◌%◌, ◌≤◌, ◌<◌, ◌≡◌, refl, ap, sym, ◌∙◌, List, [], ◌∷◌, ◌++◌,
  append-nil, length, length-append, fetch, store, set, set-append_left, set-append_right, Run, ok,
  ◌>>=◌, All, arith,
}
use native.Mathlib.Decide.{dec_lt}
use native.Mathlib.Numerals.{add-one}
use native.Mathlib.Nat.{div-eq_of_lt, mod-eq_of_lt, div-eq-sub-div, mod-eq-sub-mod}

module _ {ℓ κ μ} {A : Type ℓ} {B : Type ℓ} (f : B → List A) (S : ℕ) (g : B → Run B) (x : A) (r : ℕ)
    (P : B → Type κ) (Q : B → Type μ) where
  -- `g` writes `x` at `r` into a chunk.
  abbrev pub Writes {ν} : (B → Type ν) → B → Type (ℓ ⊔ ν)
  Writes R c = (c' : B) × (g c ≡ ok c') × (f c' ≡ set (f c) r x) × R c'

  pub record Written (ms : List B) (m : B) (j : ℕ) : Type (ℓ ⊔ κ ⊔ μ) where
    pub chunk : B
    pub changed : B
    pub init : List B
    pub last : B
    pub fetched : fetch (ms ++ m ∷ []) (j / S) ≡ ok chunk
    pub written : g chunk ≡ ok changed
    pub stored : store (ms ++ m ∷ []) (j / S) changed ≡ ok (init ++ last ∷ [])
    pub contents : concat_map f (init ++ last ∷ []) ≡ set (concat_map f (ms ++ m ∷ [])) j x
    pub width : length init ≡ length ms
    pub inner : All P init
    pub outer : Q last

  pub concat_map-Written :
      (ms : List B) (m : B) (j : ℕ)
      → 0 < S
      → j % S ≡ r
      → length (f m) ≤ S
      → All (λ c. length (f c) ≡ S) ms
      → All P ms
      → All (Writes P) ms
      → Q m
      → (r < length (f m) → Writes Q m)
      → j < length (concat_map f (ms ++ m ∷ []))
      → Written ms m j
  concat_map-Written [] m j pos e small full p w q last lt =
      let j_lt : j < S = omega (arith, length-append (f m) []) in
      let j_eq : j ≡ r = sym (mod-eq_of_lt j_lt) ∙ e in
      let (m', run, c, k) = last (omega (arith, length-append (f m) [])) in
      record {
        chunk = m;
        changed = m';
        init = [];
        last = m';
        fetched = ap (fetch (m ∷ [])) (div-eq_of_lt j_lt);
        written = run;
        stored = ap (λ t. store (m ∷ []) t m') (div-eq_of_lt j_lt);
        contents = append-nil (f m') ∙ c ∙ rw (append-nil (f m), j_eq);
        width = refl;
        inner = tt;
        outer = k;
      }
  concat_map-Written (n ∷ ms) m j pos e small full p w q last lt = elim (dec_lt j S) [
    | yes h ↦
        let j_eq : j ≡ r = sym (mod-eq_of_lt h) ∙ e in
        let (n', run, c, k) = w.0 in
        record {
          chunk = n;
          changed = n';
          init = n' ∷ ms;
          last = m;
          fetched = ap (fetch (n ∷ ms ++ m ∷ [])) (div-eq_of_lt h);
          written = run;
          stored = ap (λ t. store (n ∷ ms ++ m ∷ []) t n') (div-eq_of_lt h);
          contents =
              ap (λ l. l ++ concat_map f (ms ++ m ∷ [])) (c ∙ ap (λ t. set (f n) t x) (sym j_eq))
              ∙ sym
                  (set-append_left (f n) (concat_map f (ms ++ m ∷ [])) j x (omega (arith, full.0)));
          width = refl;
          inner = (k, p.1);
          outer = q;
        }
    | no h ↦
        let S_le : S ≤ j = omega arith in
        let j_eq : j ≡ length (f n) + (j - S) = omega (arith, full.0) in
        let digit : j / S ≡ suc ((j - S) / S) = div-eq-sub-div pos S_le ∙ add-one _ in
        let t =
          concat_map-Written ms m (j - S) pos (sym (mod-eq-sub-mod S_le) ∙ e) small full.1 p.1 w.1 q
            last (omega (arith, length-append (f n) (concat_map f (ms ++ m ∷ [])), full.0)) in
        record {
          chunk = t.chunk;
          changed = t.changed;
          init = n ∷ t.init;
          last = t.last;
          fetched = ap (fetch (n ∷ ms ++ m ∷ [])) digit ∙ t.fetched;
          written = t.written;
          stored =
              ap (λ k. store (n ∷ ms ++ m ∷ []) k t.changed) digit
              ∙ ap (λ s. s >>= λ ys. ok (n ∷ ys)) t.stored;
          contents =
              ap (λ l. f n ++ l) t.contents
              ∙ sym (set-append_right (f n) (concat_map f (ms ++ m ∷ [])) (j - S) x)
              ∙ ap (λ k. set (f n ++ concat_map f (ms ++ m ∷ [])) k x) (sym j_eq);
          width = ap suc t.width;
          inner = (p.0, t.inner);
          outer = t.outer;
        }
  ]
