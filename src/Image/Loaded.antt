-- ===== src/Image/Loaded.antt =====
-- `su_load` of src/vm/core.c on the images that `compile` of src/compiler/compile.lua writes.
use saurus.Base.{
  ℕ, ◌≤◌, ◌<◌, ◌≡◌, append_assoc, Bool-cases, inl, inr, refl, ap, subst, ◌∙◌, true, false, ◌⊎◌, ◌-◌,
  drop-drop, List, [], ◌∷◌, ◌++◌, length, length-append, drop, ok, arith,
}
use saurus.Image.{Representation, Parsed, failed, Prototype, read_prototype}
use saurus.Image.Decodes.{Leaves, cut}
use saurus.Image.Ends.{Ends, prototype-Total}
use saurus.Image.Load.{header_read, su_load}
use saurus.Image.RoundTrip.{func-Decodes}
use saurus.Image.Write.{Func, encode_header, compile_func, compile}
use saurus.Image.Written.{RepresentationLaws, image_of, Fits, DepthWithin}
use saurus.Reader.{ReaderBuffer, buffer_open, buffer_read, version_major, version_minor}
use saurus.Reader.Stream.{unread, Valid, stream, length-drop}
use saurus.Reader.Header.{accepted, Whole, whole, verify_header-accepted}

open_Valid : Valid buffer_open
unfolding buffer_open
open_Valid = record { within = omega arith; fits = omega arith }

-- After the header.
header_read-Whole :
    (b : ReaderBuffer) (chunks : List (List ℕ))
    → Valid b
    → 8 ≤ length (unread b chunks)
    → Whole 2 (drop 2 (drop 4 (unread b chunks))) (header_read b chunks)
unfolding header_read
header_read-Whole b chunks v h =
    let all = unread b chunks in
    let s1 = length-drop 4 all in
    let s2 = length-drop 2 (drop 4 all) in
    let sign = buffer_read b chunks [] 4 in
    let w1 = whole b chunks 4 all v refl (omega arith) in
    let version = buffer_read sign.buffer sign.chunks [] 2 in
    let w2 = whole sign.buffer sign.chunks 2 (drop 4 all) w1.valid w1.rest (omega arith) in
    whole version.buffer version.chunks 2 (drop 2 (drop 4 all)) w2.valid w2.rest (omega arith)

module _ {N : Type 0} (double : Representation N) where
  -- `su_load` of a stream that starts with a header that is accepted.
  su_load-accepted :
      (fuel : ℕ) (chunks : List (List ℕ))
      → 8 ≤ length (stream chunks)
      → accepted (stream chunks) ≡ true
      → su_load double fuel chunks
        ≡ ok (
            read_prototype double fuel
              (header_read buffer_open chunks).buffer
              (header_read buffer_open chunks).chunks)
  unfolding su_load buffer_open
  su_load-accepted fuel chunks h e = rw (verify_header-accepted buffer_open chunks open_Valid h, e)

  -- The stream behind a header.
  behind :
      (chunks : List (List ℕ)) (rest : List ℕ)
      → stream chunks ≡ encode_header version_major version_minor ++ rest
      → Whole 2 (0 ∷ 0 ∷ rest) (header_read buffer_open chunks)
        × (8 ≤ length (stream chunks))
        × (accepted (stream chunks) ≡ true)
  unfolding encode_header buffer_open
  behind chunks rest e =
      let long : 8 ≤ length (stream chunks) = omega (arith, ap length e) in
      (
        subst (λ all. Whole 2 (drop 2 (drop 4 all)) (header_read buffer_open chunks)) e
            (header_read-Whole buffer_open chunks open_Valid long),
        long,
        ap accepted e,
      )

  module _ (laws : RepresentationLaws double) (fuel : ℕ) (f : Func N) (fits : Fits f)
      (deep : DepthWithin fuel f) where
    -- `su_load` of an image that `compile` wrote, with whatever behind it and however the reader cuts it into
    -- chunks, gives the prototype of the function that was compiled. Its counts and the lengths of its strings
    -- are below 2^32, and the fuel is at least the depth of its nested functions.
    pub su_load-compile :
        (chunks : List (List ℕ)) (rest : List ℕ)
        → stream chunks ≡ compile double version_major version_minor f ++ rest
        → (r : Parsed (Prototype N)) × (su_load double fuel chunks ≡ ok r)
          × Leaves (image_of f) rest r
    unfolding compile
    su_load-compile chunks rest e =
        let split =
          append_assoc (encode_header version_major version_minor) (compile_func double f) rest in
        let (w, long, accepts) = behind chunks (compile_func double f ++ rest) (e ∙ split) in
        let header = header_read buffer_open chunks in
        (
          read_prototype double fuel header.buffer header.chunks,
          su_load-accepted fuel chunks long accepts,
          (func-Decodes double laws fuel f fits deep).whole header.buffer header.chunks rest w.valid
              w.rest,
        )

    -- `su_load` gives its error code for every such image that is cut short anywhere after its header.
    pub su_load-cut :
        (chunks : List (List ℕ)) (x : ℕ) (missing : List ℕ)
        → stream chunks ++ x ∷ missing ≡ compile double version_major version_minor f
        → 8 ≤ length (stream chunks)
        → su_load double fuel chunks ≡ ok failed
    unfolding compile encode_header
    su_load-cut chunks x missing e h =
        elim (cut (stream chunks) (encode_header version_major version_minor)
          (compile_func double f) x missing e) [
            | inl (y, s, q) ↦
                absurd (omega (arith, h, ap length q, length-append (stream chunks) (y ∷ s)))
            | inr (rest, q, q') ↦
                let (w, long, accepts) = behind chunks rest q in
                let header = header_read buffer_open chunks in
                su_load-accepted fuel chunks long accepts
                ∙ ap ok (
                    (func-Decodes double laws fuel f fits deep).short header.buffer header.chunks x
                      missing w.valid (ap (λ l. l ++ x ∷ missing) w.rest ∙ q'))
          ]

  -- On any stream of at least eight bytes, with more fuel than the stream has bytes, `su_load` gives its error
  -- code if the header is not accepted. If it is, `su_load` gives what `read_prototype` gives for the bytes behind
  -- the header, which does not run out of fuel and, if it is a prototype, leaves no more than these bytes to read.
  pub su_load-Ends :
      (fuel : ℕ) (chunks : List (List ℕ))
      → 8 ≤ length (stream chunks)
      → length (stream chunks) < fuel
      → ((accepted (stream chunks) ≡ false) × (su_load double fuel chunks ≡ ok failed))
        ⊎ ((accepted (stream chunks) ≡ true)
            × (buffer : ReaderBuffer) × (left : List (List ℕ)) × Valid buffer
            × (unread buffer left ≡ drop 8 (stream chunks))
            × (su_load double fuel chunks ≡ ok (read_prototype double fuel buffer left))
            × Ends 0 (length (stream chunks) - 8) (read_prototype double fuel buffer left))
  unfolding su_load buffer_open
  su_load-Ends fuel chunks h lt =
      let w = header_read-Whole buffer_open chunks open_Valid h in
      let header = header_read buffer_open chunks in
      let all = stream chunks in
      let behind_header : unread header.buffer header.chunks ≡ drop 8 all =
        w.rest ∙ drop-drop 2 2 (drop 4 all) ∙ drop-drop 4 4 all in
      let n = length all - 8 in
      let fits : length (unread header.buffer header.chunks) ≤ n =
        omega (arith, ap length behind_header, length-drop 8 all) in
      let t =
        (prototype-Total double fuel n (omega (arith, lt))).ends header.buffer header.chunks w.valid
          fits in
      elim (Bool-cases (accepted all)) [
        | inl e ↦ inr (
          e,
          header.buffer,
          header.chunks,
          w.valid,
          behind_header,
          su_load-accepted fuel chunks h e,
          t,
        )
        | inr e ↦ inl (e, rw (verify_header-accepted buffer_open chunks open_Valid h, e) refl)
      ]
