-- ===== src/Vector/Chunks.antt =====
-- Reading and writing a concatenation of chunks of one size, and the digits of an index: what
-- `(i >> level) & 0x01f` selects on the way down a tree of src/vm/seq.c.
use saurus.Base.{
  concat_map, ℕ, zero, suc, ◌+◌, ◌-◌, ◌*◌, ◌/◌, ◌%◌, ◌^◌, ◌≤◌, ◌<◌, ◌≡◌, refl, ap, sym, ◌∙◌, List,
  [], ◌∷◌, ◌++◌, append_assoc, append-nil, length, length-append, fetch, fetch-append_left,
  fetch-append_right, Run, ◌>>=◌, All, arith,
}
use native.Mathlib.Decide.{dec_lt}
use native.Mathlib.Numerals.{add-one}
use native.Mathlib.Nat.{
  pow-suc, div-eq_of_lt, mod-eq_of_lt, div-eq-sub-div, mod-eq-sub-mod, div-add-mod, mod-lt,
  div-eq_of_lt-le, div-lt_iff_lt-mul,
}

pub pow32-pos : (d : ℕ) → 0 < 32 ^ d
pow32-pos zero = omega arith
pow32-pos (suc d) = rw pow-suc (omega (arith, pow32-pos d))

-- Quotient and remainder are determined by the equation of division.
div_mod_unique : (n S k b : ℕ) → b < S → n ≡ k * S + b → (n / S ≡ k) × (n % S ≡ b)
div_mod_unique n S k b h e =
    let q : n / S ≡ k = div-eq_of_lt-le S (omega arith) (omega arith) in
    (q, omega (arith, div-add-mod n S, ap (λ t. S * t) q))

-- The digit of `i` at `S`, and what lies below it, read from the digits below `S * 32`.
digits_of :
    (i S : ℕ) → 0 < S → (i / S ≡ i / (S * 32) * 32 + i % (S * 32) / S) × (i % S ≡ i % (S * 32) % S)
digits_of i S h =
    div_mod_unique i S (i / (S * 32) * 32 + i % (S * 32) / S) (i % (S * 32) % S)
      (mod-lt (i % (S * 32)) h)
      (omega (arith, div-add-mod i (S * 32), div-add-mod (i % (S * 32)) S))

pub div-mod_digit : (i S : ℕ) → 0 < S → (i % (S * 32)) / S ≡ (i / S) % 32
div-mod_digit i S h =
    let small : i % (S * 32) / S < 32 =
      (div-lt_iff_lt-mul h).1 (omega (arith, mod-lt i {m = S * 32} (omega arith))) in
    omega (arith, (digits_of i S h).0, small)

pub mod-mod_digit : (i S : ℕ) → 0 < S → i % (S * 32) % S ≡ i % S
mod-mod_digit i S h = sym (digits_of i S h).1

module _ {ℓ κ} {A : Type ℓ} {B : Type κ} (f : B → List A) where
  pub concat_map-append :
      (ms ns : List B) → concat_map f (ms ++ ns) ≡ concat_map f ms ++ concat_map f ns
  concat_map-append [] ns = refl
  concat_map-append (m ∷ ms) ns =
      rw (concat_map-append ms ns) (sym (append_assoc (f m) (concat_map f ms) (concat_map f ns)))

module _ {ℓ κ} {A : Type ℓ} {B : Type κ} (f : B → List A) (S : ℕ) where
  pub length-concat_map :
      (ns : List B) → All (λ c. length (f c) ≡ S) ns → length (concat_map f ns) ≡ length ns * S
  length-concat_map [] h = omega arith
  length-concat_map (n ∷ ns) h =
      omega (arith, length-append {ℓ} (f n) (concat_map f ns), length-concat_map ns h.1, h.0)

  -- A read in a list of chunks, all of size `S` but the last, goes to chunk `j / S` and there to `r`,
  -- the remainder of `j`.
  pub fetch-concat_map :
      (g : B → Run A) (r : ℕ) (ms : List B) (m : B) (j : ℕ)
      → 0 < S
      → j % S ≡ r
      → length (f m) ≤ S
      → All (λ c. length (f c) ≡ S) ms
      → All (λ c. g c ≡ fetch (f c) r) ms
      → (r < length (f m) → g m ≡ fetch (f m) r)
      → j < length (concat_map f (ms ++ m ∷ []))
      → (fetch (ms ++ m ∷ []) (j / S) >>= g) ≡ fetch (concat_map f (ms ++ m ∷ [])) j
  fetch-concat_map g r [] m j pos e small full read last lt =
      let j_lt : j < S = omega (arith, length-append {ℓ} (f m) []) in
      let j_eq : j ≡ r = sym (mod-eq_of_lt j_lt) ∙ e in
      rw (div-eq_of_lt j_lt, append-nil, j_eq) (last (omega (arith, length-append {ℓ} (f m) [])))
  fetch-concat_map g r (n ∷ ms) m j pos e small full read last lt = elim (dec_lt j S) [
    | yes p ↦
        rw (div-eq_of_lt p, fetch-append_left (f n) _ j (omega (arith, full.0)))
          (rw (← e, mod-eq_of_lt p) at read.0)
    | no p ↦
        let S_le : S ≤ j = omega arith in
        let j_eq : j ≡ length (f n) + (j - S) = omega (arith, full.0) in
        rw (div-eq-sub-div pos S_le, add-one)
          (fetch-concat_map g r ms m (j - S) pos (sym (mod-eq-sub-mod S_le) ∙ e) small full.1 read.1
              last (omega (arith, length-append {ℓ} (f n) (concat_map f (ms ++ m ∷ [])), full.0))
            ∙ sym (
                ap (λ t. fetch (f n ++ concat_map f (ms ++ m ∷ [])) t) j_eq
                ∙ fetch-append_right (f n) (concat_map f (ms ++ m ∷ [])) (j - S)))
  ]
