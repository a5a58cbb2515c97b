-- ===== src/Vector/Walk.antt =====
-- The walk of `vector_index` (src/vm/seq.c) from a node down to a value reads the values below that
-- node in order.
use saurus.Base.{
  concat_map, ℕ, zero, suc, ◌+◌, ◌*◌, ◌/◌, ◌%◌, ◌^◌, ◌≤◌, ◌<◌, ◌≡◌, ap, sym, subst, ◌∙◌, List, [],
  ◌∷◌, ◌++◌, length, length-append, fetch, snoc, ◌>>=◌, All, All-map, All-left, All-right, arith,
}
use saurus.Vector.{VectorNode, sub_index, node_index}
use saurus.Vector.Shape.{flat, EndsWith, IsFull, IsSpine}
use saurus.Vector.Chunks.{
  pow32-pos, div-mod_digit, mod-mod_digit, length-concat_map, concat_map-append, fetch-concat_map,
}
use native.Mathlib.Nat.{pow-suc, mod-lt}

module _ {ℓ} (A : Type ℓ) where
  -- A node whose slots all satisfy `P` ends with one that does.
  pub All-EndsWith :
      {B : Type ℓ} (P : B → Type 0) (ns : List B)
      → 1 ≤ length ns
      → length ns ≤ 32
      → All P ns
      → EndsWith P P ns
  All-EndsWith P [] h k a = absurd (omega arith)
  All-EndsWith P (n ∷ ns) h k a =
      let (ms, m, e) = snoc n ns in
      let a' = subst (λ l. All P l) e a in
      record {
        init = ms;
        last = m;
        parts = e;
        fits = omega (arith, ap length e, length-append ms (m ∷ []));
        inner = All-left P ms (m ∷ []) a';
        outer = (All-right P ms (m ∷ []) a').0;
      }

  pub length-flat_full :
      (d : ℕ) (n : VectorNode A d) → IsFull A d n → length (flat d n) ≡ 32 ^ suc d
  unfolding flat
  length-flat_full zero n h = h
  length-flat_full (suc d) n h =
      length-concat_map (flat d) (32 ^ suc d) n
        (All-map (IsFull A d) (λ c. length (flat d c) ≡ 32 ^ suc d) (length-flat_full d) n h.1)
      ∙ rw (h.0, pow-suc 32 (suc d)) (omega arith)

  module _ {κ} (d : ℕ) (Q : VectorNode A d → Type κ) (ns : VectorNode A (suc d))
      (e : EndsWith (IsFull A d) Q ns) where
    inner_widths : All (λ c. length (flat d c) ≡ 32 ^ suc d) e.init
    inner_widths = All-map (IsFull A d) _ (length-flat_full d) e.init e.inner

    pub length-flat_ends :
        length (flat (suc d) ns) ≡ length e.init * 32 ^ suc d + length (flat d e.last)
    unfolding flat
    length-flat_ends =
        ap (λ l. length (concat_map (flat d) l)) e.parts
        ∙ ap length (concat_map-append (flat d) e.init (e.last ∷ []))
        ∙ omega (
          arith,
          length-append (concat_map (flat d) e.init) (flat d e.last ++ []),
          length-append (flat d e.last) [],
          length-concat_map (flat d) (32 ^ suc d) e.init inner_widths,
        )

    pub ends_le : length (flat d e.last) ≤ 32 ^ suc d → length (flat (suc d) ns) ≤ 32 ^ suc (suc d)
    ends_le small =
        let S : ℕ = 32 ^ suc d in
        let inits : length e.init * S ≤ 31 * S = grind (arith, e.fits) in
        omega (arith, length-flat_ends, pow-suc 32 (suc d), inits)

    pub node_index-flat_ends :
        (i : ℕ)
        → ((c : VectorNode A d)
            → IsFull A d c
            → node_index d c i ≡ fetch (flat d c) (i % 32 ^ suc d))
        → (i % 32 ^ suc d < length (flat d e.last)
            → node_index d e.last i ≡ fetch (flat d e.last) (i % 32 ^ suc d))
        → length (flat d e.last) ≤ 32 ^ suc d
        → i % 32 ^ suc (suc d) < length (flat (suc d) ns)
        → node_index (suc d) ns i ≡ fetch (flat (suc d) ns) (i % 32 ^ suc (suc d))
    unfolding flat node_index sub_index
    node_index-flat_ends i full last small lt =
        let S : ℕ = 32 ^ suc d in
        let S_pos : 0 < S = pow32-pos (suc d) in
        let j : ℕ = i % 32 ^ suc (suc d) in
        let digit : sub_index i (suc d) ≡ j / S =
          sym (div-mod_digit i S S_pos) ∙ ap (λ t. (i % t) / S) (sym (pow-suc 32 (suc d))) in
        let rest : j % S ≡ i % S =
          ap (λ t. i % t % S) (pow-suc 32 (suc d)) ∙ mod-mod_digit i S S_pos in
        ap (λ t. fetch ns t >>= λ c. node_index d c i) digit
        ∙ ap (λ l. fetch l (j / S) >>= λ c. node_index d c i) e.parts
        ∙ fetch-concat_map (flat d) S (λ c. node_index d c i) (i % S) e.init e.last j S_pos rest
            small inner_widths
            (All-map (IsFull A d) (λ c. node_index d c i ≡ fetch (flat d c) (i % S)) full e.init
              e.inner)
            last (subst (λ l. j < length (concat_map (flat d) l)) e.parts lt)
        ∙ ap (λ l. fetch (concat_map (flat d) l) j) (sym e.parts)

  pub node_index-flat_full :
      (d : ℕ) (n : VectorNode A d)
      → IsFull A d n
      → (i : ℕ) → node_index d n i ≡ fetch (flat d n) (i % 32 ^ suc d)
  unfolding flat node_index sub_index
  node_index-flat_full zero n h i = ap (fetch n) (omega arith)
  node_index-flat_full (suc d) n h i =
      let e = All-EndsWith (IsFull A d) n (omega (arith, h.0)) (omega (arith, h.0)) h.1 in
      node_index-flat_ends d (IsFull A d) n e i (λ c full. node_index-flat_full d c full i)
        (λ _. node_index-flat_full d e.last e.outer i)
        (omega (arith, length-flat_full d e.last e.outer))
        (rw (length-flat_full (suc d) n h)
          (mod-lt i {m = 32 ^ suc (suc d)} (pow32-pos (suc (suc d)))))

  pub length-flat_spine_le :
      (d : ℕ) (n : VectorNode A (suc d))
      → IsSpine A d n
      → length (flat (suc d) n) ≤ 32 ^ suc (suc d)
  length-flat_spine_le zero n e =
      ends_le 0 (IsFull A 0) n e (omega (arith, length-flat_full 0 e.last e.outer))
  length-flat_spine_le (suc d) n e =
      ends_le (suc d) (IsSpine A d) n e (length-flat_spine_le d e.last e.outer)

  -- The tree holds a whole number of tails.
  pub length-flat_spine_tails :
      (d : ℕ) (n : VectorNode A (suc d))
      → IsSpine A d n
      → (k : ℕ) × (length (flat (suc d) n) ≡ suc k * 32)
  length-flat_spine_tails zero n e = (
    length e.init,
    omega (arith, length-flat_ends 0 (IsFull A 0) n e, length-flat_full 0 e.last e.outer),
  )
  length-flat_spine_tails (suc d) n e =
      let (k, h) = length-flat_spine_tails d e.last e.outer in
      (
        length e.init * 32 ^ suc d + k,
        omega (
          arith,
          length-flat_ends (suc d) (IsSpine A d) n e,
          h,
          ap (λ t. length e.init * t) (pow-suc 32 (suc d)),
        ),
      )

  pub node_index-flat_spine :
      (d : ℕ) (n : VectorNode A (suc d))
      → IsSpine A d n
      → (i : ℕ) → i % 32 ^ suc (suc d) < length (flat (suc d) n)
      → node_index (suc d) n i ≡ fetch (flat (suc d) n) (i % 32 ^ suc (suc d))
  node_index-flat_spine zero n e i lt =
      node_index-flat_ends 0 (IsFull A 0) n e i (λ c full. node_index-flat_full 0 c full i)
        (λ _. node_index-flat_full 0 e.last e.outer i)
        (omega (arith, length-flat_full 0 e.last e.outer)) lt
  node_index-flat_spine (suc d) n e i lt =
      node_index-flat_ends (suc d) (IsSpine A d) n e i
        (λ c full. node_index-flat_full (suc d) c full i)
        (λ small. node_index-flat_spine d e.last e.outer i small)
        (length-flat_spine_le d e.last e.outer) lt
