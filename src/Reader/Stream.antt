-- ===== src/Reader/Stream.antt =====
-- `buffer_read` of src/vm/core.c against the stream of bytes that the chunks make up.
use saurus.Base.{
  ℕ, zero, suc, ◌+◌, ◌-◌, ◌*◌, ◌≤◌, ◌<◌, ◌≡◌, refl, ap, sym, ◌∙◌, true, false, List, [], ◌∷◌, ◌++◌,
  append_assoc, append-nil, length, length-append, take, take-all, drop, ltb, leb, lt→ltb, le→ltb,
  le→leb, lt→leb, ◌==◌, ==-ne, if◌then◌else◌, arith,
}
use saurus.Reader.{ReaderBuffer, Reading, grow, buffer_read}
use native.Mathlib.Decide.{dec_lt}
use native.Mathlib.Nat

module _ {ℓ} {A : Type ℓ} where
  pub length-drop : (n : ℕ) (xs : List A) → length (drop n xs) ≡ length xs - n
  length-drop zero xs = omega arith
  length-drop (suc n) [] = omega arith
  length-drop (suc n) (x ∷ xs) = omega (arith, length-drop n xs)

  drop-nil : (n : ℕ) → drop {A = A} n [] ≡ []
  drop-nil zero = refl
  drop-nil (suc n) = refl

  drop-drop : (m n : ℕ) (xs : List A) → drop (m + n) xs ≡ drop n (drop m xs)
  drop-drop zero n xs = rw Nat.zero-add refl
  drop-drop (suc m) n [] = drop-nil (suc m + n) ∙ sym (drop-nil n)
  drop-drop (suc m) n (x ∷ xs) = rw Nat.suc-add (drop-drop m n xs)

  take-append_left : (n : ℕ) (xs ys : List A) → n ≤ length xs → take n (xs ++ ys) ≡ take n xs
  take-append_left zero xs ys h = refl
  take-append_left (suc n) [] ys h = absurd (omega arith)
  take-append_left (suc n) (x ∷ xs) ys h = ap (λ l. x ∷ l) (take-append_left n xs ys (omega arith))

  drop-append_left : (n : ℕ) (xs ys : List A) → n ≤ length xs → drop n (xs ++ ys) ≡ drop n xs ++ ys
  drop-append_left zero xs ys h = refl
  drop-append_left (suc n) [] ys h = absurd (omega arith)
  drop-append_left (suc n) (x ∷ xs) ys h = drop-append_left n xs ys (omega arith)

  take-append_right : (n : ℕ) (xs ys : List A) → take (length xs + n) (xs ++ ys) ≡ xs ++ take n ys
  take-append_right n [] ys = rw Nat.zero-add refl
  take-append_right n (x ∷ xs) ys = rw Nat.suc-add (ap (λ l. x ∷ l) (take-append_right n xs ys))

  drop-append_right : (n : ℕ) (xs ys : List A) → drop (length xs + n) (xs ++ ys) ≡ drop n ys
  drop-append_right n [] ys = rw Nat.zero-add refl
  drop-append_right n (x ∷ xs) ys = rw Nat.suc-add (drop-append_right n xs ys)

  take-long : (n : ℕ) (xs : List A) → length xs ≤ n → take n xs ≡ xs
  take-long zero [] h = refl
  take-long zero (x ∷ xs) h = absurd (omega arith)
  take-long (suc n) [] h = refl
  take-long (suc n) (x ∷ xs) h = ap (λ l. x ∷ l) (take-long n xs (omega arith))

-- The bytes that the chunks still hold. A chunk of no bytes ends them.
abbrev pub stream : List (List ℕ) → List ℕ
stream [] = []
stream ([] ∷ chunks) = []
stream ((b ∷ bs) ∷ chunks) = (b ∷ bs) ++ stream chunks

-- What is still to be read.
abbrev pub unread : ReaderBuffer → List (List ℕ) → List ℕ
unread b chunks = drop b.offset b.bytes ++ stream chunks

-- The buffer's bytes fit in what is allocated.
pub record Valid (b : ReaderBuffer) : Type 0 where
  pub within : b.offset ≤ length b.bytes
  pub fits : length b.bytes ≤ b.size

-- A read of `n` bytes of `all`.
pub record Delivers (n : ℕ) (all before : List ℕ) (r : Reading) : Type 0 where
  pub complete : r.complete ≡ leb n (length all)
  pub dest : r.dest ≡ before ++ take n all
  pub rest : r.complete ≡ true → unread r.buffer r.chunks ≡ drop n all
  pub valid : Valid r.buffer

-- Growing makes enough room.
grow_le : (f size wanted : ℕ) → wanted ≤ size + f → wanted ≤ grow f size wanted
unfolding grow
grow_le zero size wanted h = omega arith
grow_le (suc f) size wanted h = elim (dec_lt size wanted) [
  | yes p ↦ rw (lt→ltb size wanted p) (grow_le f (size * 2 + 1) wanted (omega arith))
  | no p ↦ rw (le→ltb size wanted (omega arith)) (omega arith)
]

module _ (b : ReaderBuffer) (v : Valid b) (chunks : List (List ℕ)) (dest : List ℕ) (n : ℕ) where
  abbrev held : List ℕ
  held = drop b.offset b.bytes

  held-length : length b.bytes - b.offset ≡ length held
  held-length = sym (length-drop b.offset b.bytes)

  -- The buffer has enough.
  held-Delivers :
      n ≤ length held
      → Delivers n (unread b chunks) dest (record {
        complete = true;
        dest = dest ++ take n held;
        buffer = record { bytes = b.bytes; offset = b.offset + n; size = b.size };
        chunks = chunks;
      })
  held-Delivers h = record {
    complete = sym (
        le→leb n (length (held ++ stream chunks))
          (omega (arith, h, length-append held (stream chunks))));
    dest = ap (λ l. dest ++ l) (sym (take-append_left n held (stream chunks) h));
    rest = λ e.
        ap (λ l. l ++ stream chunks) (drop-drop b.offset n b.bytes)
        ∙ sym (drop-append_left n held (stream chunks) h);
    valid = record { within = omega (arith, h, held-length, v.within); fits = v.fits };
  }

  -- The buffer has less, and nothing comes after it.
  short-Delivers :
      length held < n
      → (left : List (List ℕ)) → stream chunks ≡ []
      → Delivers n (unread b chunks) dest (record {
        complete = false;
        dest = dest ++ held;
        buffer = record { bytes = b.bytes; offset = b.offset + length held; size = b.size };
        chunks = left;
      })
  short-Delivers h left e =
      let all : unread b chunks ≡ held = ap (λ l. held ++ l) e ∙ append-nil held in
      record {
        complete = rw all (sym (lt→leb n (length held) h));
        dest = ap (λ l. dest ++ l) (sym (rw all (take-long n held (omega arith))));
        rest = λ c. absurd (cc);
        valid = record { within = omega (arith, held-length, v.within); fits = v.fits };
      }

  -- The buffer has less, and the rest was read from what comes after it.
  later-Delivers :
      length held ≤ n
      → (r : Reading) → Delivers (n - length held) (stream chunks) (dest ++ held) r
      → Delivers n (unread b chunks) dest r
  later-Delivers h r d =
      let k : ℕ = n - length held in
      let n_eq : length held + k ≡ n = omega arith in
      record {
        complete = d.complete ∙ ground (arith, length-append held (stream chunks), h);
        dest =
            d.dest
            ∙ append_assoc dest held (take k (stream chunks))
            ∙ ap (λ l. dest ++ l) (sym (take-append_right k held (stream chunks)))
            ∙ ap (λ x. dest ++ take x (held ++ stream chunks)) n_eq;
        rest = λ c.
            d.rest c
            ∙ sym (drop-append_right k held (stream chunks))
            ∙ ap (λ x. drop x (held ++ stream chunks)) n_eq;
        valid = d.valid;
      }

-- How much one turn of the loop takes.
turn-enough :
    (n size : ℕ) → n ≤ size → ((if ltb n size then n else size) ≡ n) × ((n - n == 0) ≡ true)
turn-enough n size h = (ground arith, ground arith)

turn-short :
    (n size : ℕ) → size < n → ((if ltb n size then n else size) ≡ size) × ((n - size == 0) ≡ false)
turn-short n size h = (ground arith, ground arith)

-- From a valid buffer `buffer_read` reads the next `num_bytes` bytes of the stream, which is what the
-- buffer holds and then the chunks up to one of no bytes, however they are cut: it returns 0 exactly if
-- the stream has that many, `dest` then has them and the stream goes on behind them, and otherwise
-- `dest` has all that is left. The buffer stays valid: the offset is in it and its bytes fit in the
-- memory allocated.
pub buffer_read-Delivers :
    (b : ReaderBuffer) (chunks : List (List ℕ)) (dest : List ℕ) (num_bytes : ℕ)
    → Valid b
    → Delivers num_bytes (unread b chunks) dest (buffer_read b chunks dest num_bytes)
unfolding buffer_read
buffer_read-Delivers b [] dest n v = elim (dec_lt (length b.bytes - b.offset) n) [
  | yes p ↦
      let (num_eq, more) = turn-short n (length b.bytes - b.offset) p in
      rw (num_eq, more, held-length b v [] dest n, take-all (drop b.offset b.bytes))
        (short-Delivers b v [] dest n (omega (arith, p, held-length b v [] dest n)) [] refl)
  | no p ↦
      let (num_eq, done) = turn-enough n (length b.bytes - b.offset) (omega arith) in
      rw (num_eq, done) (held-Delivers b v [] dest n (omega (arith, p, held-length b v [] dest n)))
]
buffer_read-Delivers b ([] ∷ chunks) dest n v = elim (dec_lt (length b.bytes - b.offset) n) [
  | yes p ↦
      let (num_eq, more) = turn-short n (length b.bytes - b.offset) p in
      rw (num_eq, more, held-length b v ([] ∷ chunks) dest n, take-all (drop b.offset b.bytes))
        (short-Delivers b v ([] ∷ chunks) dest n
          (omega (arith, p, held-length b v ([] ∷ chunks) dest n)) chunks refl)
  | no p ↦
      let (num_eq, done) = turn-enough n (length b.bytes - b.offset) (omega arith) in
      rw (num_eq, done)
        (held-Delivers b v ([] ∷ chunks) dest n
          (omega (arith, p, held-length b v ([] ∷ chunks) dest n)))
]
buffer_read-Delivers b ((c ∷ cs) ∷ chunks) dest n v = elim (dec_lt (length b.bytes - b.offset) n) [
  | yes p ↦
      let (num_eq, more) = turn-short n (length b.bytes - b.offset) p in
      let width = held-length b v ((c ∷ cs) ∷ chunks) dest n in
      let next : ReaderBuffer = record {
        bytes = c ∷ cs;
        offset = 0;
        size = grow (length (c ∷ cs)) b.size (length (c ∷ cs));
      } in
      let next-Valid : Valid next = record {
        within = omega arith;
        fits = grow_le (length (c ∷ cs)) b.size (length (c ∷ cs)) (omega arith);
      } in
      rw
        (
          num_eq,
          more,
          ==-ne (length (c ∷ cs)) 0 (omega arith),
          width,
          take-all (drop b.offset b.bytes),
        )
        (later-Delivers b v ((c ∷ cs) ∷ chunks) dest n (omega (arith, p, width)) _ (
          buffer_read-Delivers next chunks (dest ++ drop b.offset b.bytes)
            (n - length (drop b.offset b.bytes)) next-Valid))
  | no p ↦
      let (num_eq, done) = turn-enough n (length b.bytes - b.offset) (omega arith) in
      rw (num_eq, done)
        (held-Delivers b v ((c ∷ cs) ∷ chunks) dest n
          (omega (arith, p, held-length b v ((c ∷ cs) ∷ chunks) dest n)))
]
