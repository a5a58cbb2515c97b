-- ===== src/Image/Decodes.antt =====
-- Parsers of src/vm/core.c that read back an encoding, and fail where it is cut short.
use saurus.Base.{
  ℕ, ◌≡◌, refl, ap, ap₂, sym, ◌∙◌, true, List, [], ◌∷◌, ◌++◌, map, length, length-append, take,
  drop, take-length-append, append_assoc, append-nil, concat_map, All, le→leb, lt→leb, ◌⊎◌, inl,
  inr, if◌then◌else◌, arith,
}
use saurus.Image.{Parsed, done, failed, Parser, pure, read_bytes, repeat, ◌>>=◌}
use saurus.Reader.{ReaderBuffer, buffer_read}
use saurus.Reader.Stream.{unread, Valid, buffer_read-Delivers}

-- A parse that ended with a value, and with this stream behind it.
pub record Leaves {A : Type 0} (a : A) (rest : List ℕ) (r : Parsed A) : Type 0 where
  pub buffer : ReaderBuffer
  pub chunks : List (List ℕ)
  pub result : r ≡ done a buffer chunks
  pub valid : Valid buffer
  pub unread_rest : unread buffer chunks ≡ rest

-- On a stream that starts with the encoding the parser gives the value and leaves the rest. On a stream that
-- is a proper beginning of the encoding it fails.
pub record Decodes {A : Type 0} (p : Parser A) (encoding : List ℕ) (a : A) : Type 0 where
  pub whole :
      (b : ReaderBuffer) (chunks : List (List ℕ)) (rest : List ℕ)
      → Valid b
      → unread b chunks ≡ encoding ++ rest
      → Leaves a rest (p b chunks)
  pub short :
      (b : ReaderBuffer) (chunks : List (List ℕ)) (x : ℕ) (missing : List ℕ)
      → Valid b
      → unread b chunks ++ x ∷ missing ≡ encoding
      → p b chunks ≡ failed

cons_injective : {a b : ℕ} {xs ys : List ℕ} → a ∷ xs ≡ b ∷ ys → (a ≡ b) × (xs ≡ ys)
cons_injective h = (cc, cc)

not_empty : (xs : List ℕ) (x : ℕ) (ys : List ℕ) → ¬ (xs ++ x ∷ ys ≡ [])
not_empty [] x ys h = cc
not_empty (y ∷ xs) x ys h = cc

-- Where a beginning of two encodings ends.
pub cut :
    (u e e' : List ℕ) (x : ℕ) (t : List ℕ)
    → u ++ x ∷ t ≡ e ++ e'
    → ((y : ℕ) × (s : List ℕ) × (u ++ y ∷ s ≡ e))
      ⊎ ((rest : List ℕ) × (u ≡ e ++ rest) × (rest ++ x ∷ t ≡ e'))
cut u [] e' x t h = inr (u, refl, h)
cut [] (y ∷ ys) e' x t h = inl (y, ys, refl)
cut (c ∷ u) (y ∷ ys) e' x t h = elim (cut u ys e' x t (cons_injective h).1) [
  | inl (z, s, q) ↦ inl (z, s, ap₂ ◌∷◌ (cons_injective h).0 q)
  | inr (rest, q, r) ↦ inr (rest, ap₂ ◌∷◌ (cons_injective h).0 q, r)
]

drop-length-append : (xs ys : List ℕ) → drop (length xs) (xs ++ ys) ≡ ys
drop-length-append [] ys = refl
drop-length-append (x ∷ xs) ys = drop-length-append xs ys

module _ {A : Type 0} where
  pub pure-Decodes : (a : A) → Decodes (pure a) [] a
  pure-Decodes a = record {
    whole = λ b chunks rest v e. record {
      buffer = b;
      chunks = chunks;
      result = refl;
      valid = v;
      unread_rest = e;
    };
    short = λ b chunks x missing v e. absurd (not_empty (unread b chunks) x missing e);
  }

  pub bind-Decodes :
      {B : Type 0} (p : Parser A) (f : A → Parser B) (e e' : List ℕ) (a : A) (r : B)
      → Decodes p e a
      → Decodes (f a) e' r
      → Decodes (p >>= f) (e ++ e') r
  bind-Decodes p f e e' a r d d' = record {
    whole = λ b chunks rest v h.
        let l = d.whole b chunks (e' ++ rest) v (h ∙ append_assoc e e' rest) in
        let l' = d'.whole l.buffer l.chunks rest l.valid l.unread_rest in
        record {
          buffer = l'.buffer;
          chunks = l'.chunks;
          result = rw l.result l'.result;
          valid = l'.valid;
          unread_rest = l'.unread_rest;
        };
    short = λ b chunks x missing v h. elim (cut (unread b chunks) e e' x missing h) [
      | inl (y, s, q) ↦ rw (d.short b chunks y s v q)
      | inr (rest, q, q') ↦
          let l = d.whole b chunks rest v q in
          rw l.result (
            d'.short l.buffer l.chunks x missing l.valid
              (ap (λ u. u ++ x ∷ missing) l.unread_rest ∙ q'))
    ];
  }

module _ {A : Type 0} where
  pub repeat-Decodes {κ} :
      {X : Type κ} (p : Parser A) (enc : X → List ℕ) (val : X → A) (xs : List X)
      → All (λ x. Decodes p (enc x) (val x)) xs
      → Decodes (repeat (length xs) p) (concat_map enc xs) (map val xs)
  unfolding repeat
  repeat-Decodes p enc val [] h = pure-Decodes {A = List A} []
  repeat-Decodes p enc val (x ∷ xs) h = rw (← append-nil (concat_map enc xs)) (
      bind-Decodes p _ (enc x) (concat_map enc xs ++ []) (val x) (val x ∷ map val xs) h.0 (
        bind-Decodes (repeat (length xs) p) _ (concat_map enc xs) [] (map val xs)
          (val x ∷ map val xs) (repeat-Decodes p enc val xs h.1)
          (pure-Decodes (val x ∷ map val xs))))

pub read_bytes-Decodes : (xs : List ℕ) → Decodes (read_bytes (length xs)) xs xs
unfolding read_bytes
read_bytes-Decodes xs = record {
  whole = λ b chunks rest v h.
      let d = buffer_read-Delivers b chunks [] (length xs) v in
      let r = buffer_read b chunks [] (length xs) in
      let n = ap length h ∙ length-append xs rest in
      let complete : r.complete ≡ true =
        d.complete ∙ le→leb (length xs) (length (unread b chunks)) (omega (arith, n)) in
      record {
        buffer = r.buffer;
        chunks = r.chunks;
        result =
            ap (λ t. if t then done r.dest r.buffer r.chunks else failed) complete
            ∙ ap (λ l. done l r.buffer r.chunks)
                (d.dest ∙ ap (take (length xs)) h ∙ take-length-append xs rest);
        valid = d.valid;
        unread_rest = d.rest complete ∙ ap (drop (length xs)) h ∙ drop-length-append xs rest;
      };
  short = λ b chunks x missing v h.
      let d = buffer_read-Delivers b chunks [] (length xs) v in
      let r = buffer_read b chunks [] (length xs) in
      let n = sym (ap length h) ∙ length-append (unread b chunks) (x ∷ missing) in
      ap (λ t. if t then done r.dest r.buffer r.chunks else failed)
        (d.complete ∙ lt→leb (length xs) (length (unread b chunks)) (omega (arith, n)));
}
