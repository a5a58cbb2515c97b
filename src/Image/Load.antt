-- ===== src/Image/Load.antt =====
-- `su_load` of src/vm/core.c up to the closure that it makes of the prototype.
use saurus.Base.{ℕ, List, [], if◌then◌else◌, Run, ok, ◌>>=◌}
use saurus.Image.{Representation, Parsed, failed, Prototype, read_prototype}
use saurus.Reader.{ReaderBuffer, Reading, buffer_open, buffer_read, verify_header}

-- The reads of `verify_header`, the last of which the prototype follows.
unfoldable pub header_read : ReaderBuffer → List (List ℕ) → Reading
header_read b chunks =
    let sign = buffer_read b chunks [] 4 in
    let version = buffer_read sign.buffer sign.chunks [] 2 in
    buffer_read version.buffer version.chunks [] 2

-- The prototype, or the error code.
unfoldable pub su_load :
    {N : Type 0} → Representation N → (fuel : ℕ) → List (List ℕ) → Run (Parsed (Prototype N))
unfolding header_read
su_load double fuel chunks = verify_header buffer_open chunks >>= λ accepted.
    let header = header_read buffer_open chunks in
    ok (if accepted then read_prototype double fuel header.buffer header.chunks else failed)
