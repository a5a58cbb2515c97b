-- ===== src/Image.antt =====
-- Program images: `read_prototype` and `read_string` of src/vm/core.c. An `unsigned` or a `short` is read into
-- memory byte by byte, the lowest byte first. Allocations succeed.
pub mod Write
pub mod Decodes
pub mod Written
pub mod RoundTrip
pub mod Ends
pub mod Load
pub mod Loaded
use saurus.Base.{ℕ, zero, suc, ◌+◌, ◌*◌, List, [], ◌∷◌, take, drop, ◌==◌, if◌then◌else◌}
use saurus.Reader.{ReaderBuffer, Reading, buffer_read}

-- How a read ends: with a value and the rest of the stream, with an error code, or in a failed `assert`. A
-- recursion that is deeper than its fuel is `exhausted`.
pub data Parsed (A : Type 0) : Type 0 where
  done : A → ReaderBuffer → List (List ℕ) → Parsed A
  failed : Parsed A
  aborted : Parsed A
  exhausted : Parsed A

abbrev pub Parser : Type 0 → Type 0
Parser A = ReaderBuffer → List (List ℕ) → Parsed A

abbrev pub continue : {A B : Type 0} → Parsed A → (A → Parser B) → Parsed B
continue (done a b chunks) f = f a b chunks
continue failed f = failed
continue aborted f = aborted
continue exhausted f = exhausted

infixl 5 ◌>>=◌
abbrev pub ◌>>=◌ : {A B : Type 0} → Parser A → (A → Parser B) → Parser B
◌>>=◌ p f b chunks = continue (p b chunks) f

abbrev pub pure : {A : Type 0} → A → Parser A
pure a b chunks = done a b chunks

abbrev pub fail_with : {A : Type 0} → Parsed A → Parser A
fail_with r b chunks = r

abbrev pub delivered : Reading → Parsed (List ℕ)
delivered r = if r.complete then done r.dest r.buffer r.chunks else failed

-- `READ`: the bytes that are read, or `goto error`.
unfoldable pub read_bytes : ℕ → Parser (List ℕ)
unfolding buffer_read
read_bytes n b chunks = delivered (buffer_read b chunks [] n)

-- The `for` loops of `read_prototype`.
unfoldable pub repeat : {A : Type 0} → ℕ → Parser A → Parser (List A)
repeat zero p = pure []
repeat (suc n) p = p >>= λ x. repeat n p >>= λ xs. pure (x ∷ xs)

-- The number that stands in memory as these bytes.
abbrev pub word : List ℕ → ℕ
word [] = 0
word (x ∷ xs) = x + 256 * word xs

abbrev pub first_byte : List ℕ → ℕ
first_byte [] = 0
first_byte (x ∷ xs) = x

unfoldable pub read_unsigned : Parser ℕ
unfolding read_bytes
read_unsigned = read_bytes 4 >>= λ bytes. pure (word bytes)

-- `instruction_t`; `b` is the bit pattern of a `short`.
pub record InstructionWord : Type 0 where
  pub id : ℕ
  pub a : ℕ
  pub b : ℕ

-- `upvalue_t`
pub record UpvalueRef : Type 0 where
  pub lv : ℕ
  pub idx : ℕ

-- How a `double` stands in memory.
pub record Representation (N : Type 0) : Type 0 where
  pub bytes : N → List ℕ
  pub value : List ℕ → N

-- `const_t`
pub data Constant (N : Type 0) : Type 0 where
  cnil cfalse ctrue : Constant N
  cnumber : N → Constant N
  cstring : List ℕ → Constant N

-- `struct prototype`
mutual
  pub data Prototype (N : Type 0) : Type 0 where
    prototype :
        (inst : List InstructionWord) (constants : List (Constant N)) (upvalues : List UpvalueRef)
        (prot : Prototypes N) (name : List ℕ) (lineinf : List ℕ)
        → Prototype N

  pub data Prototypes (N : Type 0) : Type 0 where
    no_more : Prototypes N
    more : Prototype N → Prototypes N → Prototypes N

unfoldable pub array : {N : Type 0} → List (Prototype N) → Prototypes N
array [] = no_more
array (p ∷ ps) = more p (array ps)

-- The fields of an instruction and of an upvalue, where they stand in memory.
abbrev pub instruction_of : List ℕ → InstructionWord
instruction_of [] = record { id = 0; a = 0; b = 0 }
instruction_of (id ∷ []) = record { id = id; a = 0; b = 0 }
instruction_of (id ∷ a ∷ b) = record { id = id; a = a; b = word b }

abbrev pub upvalue_of : List ℕ → UpvalueRef
upvalue_of bytes = record { lv = word (take 2 bytes); idx = word (drop 2 bytes) }

unfoldable pub read_instruction : Parser InstructionWord
unfolding read_bytes
read_instruction = read_bytes 4 >>= λ bytes. pure (instruction_of bytes)

unfoldable pub read_upvalue : Parser UpvalueRef
unfolding read_bytes
read_upvalue = read_bytes 4 >>= λ bytes. pure (upvalue_of bytes)

unfoldable pub read_string : Parser (List ℕ)
unfolding read_unsigned read_bytes
read_string = read_unsigned >>= λ size. read_bytes size

module _ {N : Type 0} (double : Representation N) where
  -- The `switch` on the id of a constant.
  unfoldable pub constant_body : ℕ → Parser (Constant N)
  unfolding read_string read_bytes
  constant_body id =
      if id == 4
      then (read_string >>= λ str. pure (cstring str))
      else if id == 3
      then (read_bytes 8 >>= λ bytes. pure (cnumber (double.value bytes)))
      else if id == 2
      then pure ctrue
      else if id == 1
      then pure cfalse
      else if id == 0
      then pure cnil
      else fail_with aborted

  unfoldable pub read_constant : Parser (Constant N)
  read_constant = read_bytes 1 >>= λ id. constant_body (first_byte id)

  -- `read_prototype`, a level of nested prototypes for each unit of fuel.
  unfoldable pub read_prototype : ℕ → Parser (Prototype N)
  unfolding array
  read_prototype zero = fail_with exhausted
  read_prototype (suc fuel) = do
    num_inst ← read_unsigned
    inst ← repeat num_inst read_instruction
    num_const ← read_unsigned
    constants ← repeat num_const read_constant
    num_ups ← read_unsigned
    upvalues ← repeat num_ups read_upvalue
    num_prot ← read_unsigned
    prot ← repeat num_prot (read_prototype fuel)
    name ← read_string
    num_lineinf ← read_unsigned
    lineinf ← repeat num_lineinf read_unsigned
    pure (prototype inst constants upvalues (array prot) name lineinf)
