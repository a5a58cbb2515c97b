-- ===== src/Reader.antt =====
-- The buffered reader of program images in src/vm/core.c. The reader callback belongs to the caller:
-- it is the list of the chunks that it gives, one for each call, until it gives NULL. A byte is a
-- number.
pub mod Stream
pub mod Header
use saurus.Base.{
  ℕ, zero, suc, ◌+◌, ◌-◌, ◌*◌, Bool, true, false, ◌&&◌, ◌||◌, not, List, [], ◌∷◌, ◌++◌, length,
  take, drop, ltb, ◌==◌, if◌then◌else◌, Run, ok, fault, ◌>>=◌,
}

-- `struct reader_buffer`: `len` is the length of `bytes`, and `size` the bytes allocated.
pub record ReaderBuffer : Type 0 where
  pub bytes : List ℕ
  pub offset : ℕ
  pub size : ℕ

-- `buffer_open`
unfoldable pub buffer_open : ReaderBuffer
buffer_open = record { bytes = []; offset = 0; size = 0 }

-- What a call of `buffer_read` did: whether it returned 0, what it wrote to `dest`, and what is left.
pub record Reading : Type 0 where
  pub complete : Bool
  pub dest : List ℕ
  pub buffer : ReaderBuffer
  pub chunks : List (List ℕ)

-- The loop that makes room for a chunk, a turn for each unit of fuel.
unfoldable pub grow : ℕ → (size wanted : ℕ) → ℕ
grow zero size wanted = size
grow (suc f) size wanted =
    let more = grow f (size * 2 + 1) wanted in if ltb size wanted then more else size

-- `buffer_read`: `dest` is what is written already, and `num_bytes` are to come.
unfoldable pub buffer_read :
    ReaderBuffer → List (List ℕ) → (dest : List ℕ) → (num_bytes : ℕ) → Reading
unfolding grow
buffer_read b [] dest num_bytes =
    let size = length b.bytes - b.offset in
    let num = if ltb num_bytes size then num_bytes else size in
    record {
      complete = num_bytes - num == 0;
      dest = dest ++ take num (drop b.offset b.bytes);
      buffer = record { bytes = b.bytes; offset = b.offset + num; size = b.size };
      chunks = [];
    }
buffer_read b (chunk ∷ chunks) dest num_bytes =
    let size = length b.bytes - b.offset in
    let num = if ltb num_bytes size then num_bytes else size in
    let dest' = dest ++ take num (drop b.offset b.bytes) in
    let b' : ReaderBuffer = record { bytes = b.bytes; offset = b.offset + num; size = b.size } in
    let next : ReaderBuffer = record {
      bytes = chunk;
      offset = 0;
      size = grow (length chunk) b.size (length chunk);
    } in
    let rest : Reading = buffer_read next chunks dest' (num_bytes - num) in
    if num_bytes - num == 0
    then record { complete = true; dest = dest'; buffer = b'; chunks = chunk ∷ chunks }
    else if length chunk == 0
    then record { complete = false; dest = dest'; buffer = b'; chunks = chunks }
    else rest

-- `VERSION_MAJOR` and `VERSION_MINOR`
abbrev pub version_major : ℕ
version_major = 0

abbrev pub version_minor : ℕ
version_minor = 0

-- "\x1bsuc"
abbrev pub signature : List ℕ
signature = 27 ∷ 115 ∷ 117 ∷ 99 ∷ []

abbrev pub bytes_eq : List ℕ → List ℕ → Bool
bytes_eq [] [] = true
bytes_eq (a ∷ as') (b ∷ bs) = a == b && bytes_eq as' bs
bytes_eq _ _ = false

-- The three tests of `verify_header` on what was read, each made before the next read. The byte order
-- of `flags` is no matter to the last.
abbrev pub version_refused : List ℕ → Bool
version_refused version =
    not (bytes_eq (take 1 version) (version_major ∷ []))
    && not (bytes_eq (drop 1 version) (version_minor ∷ []))

abbrev pub flags_refused : List ℕ → Bool
flags_refused flags = not (bytes_eq flags (0 ∷ 0 ∷ []))

-- `verify_header`: whether it returns 0. It ignores what `buffer_read` returns, and to test what a
-- short read left unwritten is undefined.
unfoldable pub verify_header : ReaderBuffer → List (List ℕ) → Run Bool
unfolding buffer_read
verify_header b chunks =
    let sign = buffer_read b chunks [] 4 in
    let version = buffer_read sign.buffer sign.chunks [] 2 in
    let flags = buffer_read version.buffer version.chunks [] 2 in
    if sign.complete
    then (if bytes_eq sign.dest signature
        then (if version.complete
            then (if version_refused version.dest
                then ok false
                else if flags.complete
                then ok (not (flags_refused flags.dest))
                else fault)
            else fault)
        else ok false)
    else fault
