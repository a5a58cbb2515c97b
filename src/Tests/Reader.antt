-- ===== src/Tests/Reader.antt =====
-- A program image of src/vm/core.c that comes in three chunks.
use saurus.Base.{ℕ, ◌≡◌, refl, true, false, List, [], ◌∷◌, ok, fault, arith}
use saurus.Reader.{buffer_open, buffer_read, verify_header}
use saurus.Reader.Stream.{unread, Valid, Delivers, buffer_read-Delivers}
use saurus.Reader.Header.{accepted, verify_header-accepted}

abbrev chunks : List (List ℕ)
chunks = (27 ∷ 115 ∷ []) ∷ (117 ∷ 99 ∷ 0 ∷ []) ∷ (0 ∷ 0 ∷ 0 ∷ 9 ∷ []) ∷ []

open-Valid : Valid buffer_open
unfolding buffer_open
open-Valid = record { within = omega arith; fits = omega arith }

buffer_read_example :
    Delivers 4 (unread buffer_open chunks) [] (buffer_read buffer_open chunks [] 4)
buffer_read_example = buffer_read-Delivers buffer_open chunks [] 4 open-Valid

verify_header_example : verify_header buffer_open chunks ≡ ok (accepted (unread buffer_open chunks))
unfolding buffer_open
verify_header_example = verify_header-accepted buffer_open chunks open-Valid (omega arith)

-- A version that agrees only in its major number passes, and a short image is read past its end.
other_version :
    verify_header buffer_open ((27 ∷ 115 ∷ 117 ∷ 99 ∷ 0 ∷ 7 ∷ 0 ∷ 0 ∷ []) ∷ []) ≡ ok true
unfolding verify_header buffer_open
other_version = refl

other_signature :
    verify_header buffer_open ((27 ∷ 115 ∷ 117 ∷ 98 ∷ 0 ∷ 0 ∷ 0 ∷ 0 ∷ []) ∷ []) ≡ ok false
unfolding verify_header buffer_open
other_signature = refl

short_image : verify_header buffer_open ((27 ∷ 115 ∷ []) ∷ []) ≡ fault
unfolding verify_header buffer_open
short_image = refl
