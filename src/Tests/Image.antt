-- ===== src/Tests/Image.antt =====
-- Images of src/compiler/compile.lua, cut into chunks and cut short; the only numbers are two.
use saurus.Base.{
  ℕ, ◌≡◌, ◌⊎◌, refl, Bool, true, false, none, some, List, [], ◌∷◌, take, drop, ◌==◌, if◌then◌else◌,
  ok, negsuc, arith,
}
use saurus.Image.{Representation, Parsed, failed, Prototype, first_byte, read_prototype}
use saurus.Image.Decodes.{Leaves}
use saurus.Image.Ends.{Ends}
use saurus.Image.Load.{su_load}
use saurus.Image.Loaded.{su_load-compile, su_load-cut, su_load-Ends}
use saurus.Reader.{ReaderBuffer}
use saurus.Reader.Header.{accepted}
use saurus.Reader.Stream.{unread, Valid, stream}
use saurus.Image.Write.{text, num, bool, Func, func, nil, cons, compile}
use saurus.Image.Written.{RepresentationLaws, image_of, instruction_image}

abbrev two_numbers : Representation Bool
two_numbers = record {
  bytes = λ n. (if n then 1 else 0) ∷ 0 ∷ 0 ∷ 0 ∷ 0 ∷ 0 ∷ 0 ∷ 0 ∷ [];
  value = λ bytes. first_byte bytes == 1;
}

two_numbers_laws : RepresentationLaws two_numbers
two_numbers_laws = record { size = λ n. refl; value_bytes = value_bytes }
  where
    value_bytes : (n : Bool) → (first_byte (two_numbers.bytes n) == 1) ≡ n
    value_bytes true = refl
    value_bytes false = refl

-- (lambda ...) around a function of two constants.
abbrev inner : Func Bool
inner =
    func
      (record { op = 0; param1 = some 1; param2 = none }
        ∷ record { op = 18; param1 = none; param2 = none }
        ∷ [])
      (num true ∷ text (97 ∷ 98 ∷ []) ∷ []) (record { level = 1; id = 2 } ∷ []) nil none
      (3 ∷ 3 ∷ [])

abbrev outer : Func Bool
outer =
    func (record { op = 21; param1 = some 0; param2 = some (negsuc 0) } ∷ [])
      (text (110 ∷ 105 ∷ 108 ∷ []) ∷ bool false ∷ []) [] (cons inner nil) (some (63 ∷ [])) (7 ∷ [])

abbrev image : List ℕ
image = compile two_numbers 0 0 outer

abbrev pieces : List (List ℕ)
pieces = take 5 image ∷ drop 5 image ∷ []

abbrev short_pieces : List (List ℕ)
short_pieces = take 20 image ∷ []

su_load-compile_example :
    (r : Parsed (Prototype Bool)) × (su_load two_numbers 2 pieces ≡ ok r)
    × Leaves (image_of outer) [] r
unfolding compile
su_load-compile_example =
    su_load-compile two_numbers two_numbers_laws 2 outer (omega arith) (omega arith) pieces [] refl

su_load-cut_example : su_load two_numbers 2 short_pieces ≡ ok failed
unfolding compile
su_load-cut_example =
    su_load-cut two_numbers two_numbers_laws 2 outer (omega arith) (omega arith) short_pieces 0
      (drop 21 image) refl (omega arith)

su_load-Ends_example :
    ((accepted (stream short_pieces) ≡ false) × (su_load two_numbers 21 short_pieces ≡ ok failed))
    ⊎ ((accepted (stream short_pieces) ≡ true)
        × (buffer : ReaderBuffer) × (left : List (List ℕ)) × Valid buffer
        × (unread buffer left ≡ drop 8 (stream short_pieces))
        × (su_load two_numbers 21 short_pieces ≡ ok (read_prototype two_numbers 21 buffer left))
        × Ends 0 12 (read_prototype two_numbers 21 buffer left))
unfolding compile
su_load-Ends_example = su_load-Ends two_numbers 21 short_pieces (omega arith) (omega arith)

-- A jump to instruction 256 goes to instruction 0.
far_jump :
    instruction_image (record { op = 17; param1 = some 256; param2 = none })
    ≡ record { id = 17; a = 0; b = 0 }
far_jump = refl
