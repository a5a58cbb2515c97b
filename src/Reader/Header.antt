-- ===== src/Reader/Header.antt =====
-- `verify_header` of src/vm/core.c on a stream that has a whole header.
use saurus.Base.{
  ℕ, ◌≤◌, ◌≡◌, refl, ap, ◌∙◌, Bool, true, false, not, ◌&&◌, ◌||◌, ◌==◌, ◌∷◌, List, [], length, take,
  drop, leb, le→leb, if◌then◌else◌, ok, arith,
}
use saurus.Reader.{
  ReaderBuffer, Reading, buffer_read, verify_header, bytes_eq, signature, version_refused,
  flags_refused,
}
use saurus.Reader.Stream.{unread, Valid, buffer_read-Delivers, length-drop}

-- A header that is accepted, written out: the bytes of "\27suc", a version with a zero for its major or
-- for its minor number, and two zeros.
abbrev pub accepted : List ℕ → Bool
accepted (a ∷ b ∷ c ∷ d ∷ major ∷ minor ∷ first ∷ second ∷ rest) =
    a == 27
    && (b == 115
        && (c == 117 && (d == 99 && ((major == 0 || minor == 0) && (first == 0 && second == 0)))))
accepted _ = false

header_tests :
    (a b c d major minor first second : Bool)
    → ((a && (b && (c && (d && true))))
        && (not (not (major && true) && not (minor && true))
            && not (not (first && (second && true)))))
      ≡ (a && (b && (c && (d && ((major || minor) && (first && second))))))
header_tests false b c d p q x y = refl
header_tests true false c d p q x y = refl
header_tests true true false d p q x y = refl
header_tests true true true false p q x y = refl
header_tests true true true true false false x y = refl
header_tests true true true true true q false y = refl
header_tests true true true true true q true false = refl
header_tests true true true true true q true true = refl
header_tests true true true true false true false y = refl
header_tests true true true true false true true false = refl
header_tests true true true true false true true true = refl

-- The three tests of `verify_header` accept these headers.
tests-accepted :
    (all : List ℕ)
    → 8 ≤ length all
    → (bytes_eq (take 4 all) signature
        && (not (version_refused (take 2 (drop 4 all)))
            && not (flags_refused (take 2 (drop 2 (drop 4 all))))))
      ≡ accepted all
tests-accepted (a ∷ b ∷ c ∷ d ∷ major ∷ minor ∷ first ∷ second ∷ rest) h =
    header_tests (a == 27) (b == 115) (c == 117) (d == 99) (major == 0) (minor == 0) (first == 0)
      (second == 0)
tests-accepted [] h = absurd (omega arith)
tests-accepted (a ∷ []) h = absurd (omega arith)
tests-accepted (a ∷ b ∷ []) h = absurd (omega arith)
tests-accepted (a ∷ b ∷ c ∷ []) h = absurd (omega arith)
tests-accepted (a ∷ b ∷ c ∷ d ∷ []) h = absurd (omega arith)
tests-accepted (a ∷ b ∷ c ∷ d ∷ e ∷ []) h = absurd (omega arith)
tests-accepted (a ∷ b ∷ c ∷ d ∷ e ∷ f ∷ []) h = absurd (omega arith)
tests-accepted (a ∷ b ∷ c ∷ d ∷ e ∷ f ∷ g ∷ []) h = absurd (omega arith)

tests :
    (sign version flags : Bool)
    → (if sign then (if version then ok false else ok (not flags)) else ok false)
      ≡ ok (sign && (not version && not flags))
tests true true flags = refl
tests true false flags = refl
tests false version flags = refl

-- A whole read of the front of a stream.
pub record Whole (n : ℕ) (all : List ℕ) (r : Reading) : Type 0 where
  pub complete : r.complete ≡ true
  pub dest : r.dest ≡ take n all
  pub rest : unread r.buffer r.chunks ≡ drop n all
  pub valid : Valid r.buffer

pub whole :
    (b : ReaderBuffer) (chunks : List (List ℕ)) (n : ℕ) (all : List ℕ)
    → Valid b
    → unread b chunks ≡ all
    → n ≤ length all
    → Whole n all (buffer_read b chunks [] n)
whole b chunks n all v e h =
    let d = buffer_read-Delivers b chunks [] n v in
    let done = d.complete ∙ ap (λ l. leb n (length l)) e ∙ le→leb n (length all) h in
    record {
      complete = done;
      dest = d.dest ∙ ap (take n) e;
      rest = d.rest done ∙ ap (drop n) e;
      valid = d.valid;
    }

-- From a valid buffer whose stream has at least the eight bytes of a header, `verify_header` reads no
-- unwritten byte and returns 0 exactly if the first four bytes of the stream are 27, 115, 117 and 99, one of
-- the next two, the version, is zero, and both of the two after them are zero, however the reader cuts the stream into chunks.
pub verify_header-accepted :
    (b : ReaderBuffer) (chunks : List (List ℕ))
    → Valid b
    → 8 ≤ length (unread b chunks)
    → verify_header b chunks ≡ ok (accepted (unread b chunks))
unfolding verify_header
verify_header-accepted b chunks v h =
    let all = unread b chunks in
    let s1 = length-drop 4 all in
    let s2 = length-drop 2 (drop 4 all) in
    let sign = buffer_read b chunks [] 4 in
    let w1 = whole b chunks 4 all v refl (omega arith) in
    let version = buffer_read sign.buffer sign.chunks [] 2 in
    let w2 = whole sign.buffer sign.chunks 2 (drop 4 all) w1.valid w1.rest (omega arith) in
    let w3 =
      whole version.buffer version.chunks 2 (drop 2 (drop 4 all)) w2.valid w2.rest (omega arith) in
    rw (w1.complete, w1.dest, w2.complete, w2.dest, w3.complete, w3.dest)
      (tests (bytes_eq (take 4 all) signature) (version_refused (take 2 (drop 4 all)))
          (flags_refused (take 2 (drop 2 (drop 4 all))))
        ∙ ap ok (tests-accepted all h))
