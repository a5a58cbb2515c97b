-- ===== src/Image/Write.antt =====
-- What the compiler writes: the encoders of src/compiler/writebin.c, and `compile_func` of
-- src/compiler/compile.lua, which calls them. What is written is the list of its bytes.
use saurus.Base.{
  ℕ, zero, suc, ◌-◌, ◌/◌, ◌%◌, Bool, true, false, Option, none, some, List, [], ◌∷◌, ◌++◌, length,
  concat_map, ◌==◌, if◌then◌else◌, ℤ, pos, negsuc,
}
use saurus.Image.{Representation}
use saurus.Reader.{signature, bytes_eq}

-- A number in memory, the lowest byte first.
abbrev pub bytes_of : (count : ℕ) → ℕ → List ℕ
bytes_of zero n = []
bytes_of (suc k) n = (n % 256) ∷ bytes_of k (n / 256)

-- `(short)n` as a bit pattern.
abbrev pub short_bits : ℤ → ℕ
short_bits (pos n) = n % 65536
short_bits (negsuc n) = 65535 - n % 65536

unfoldable pub encode_uint8 : ℕ → List ℕ
encode_uint8 n = bytes_of 1 n

unfoldable pub encode_uint16 : ℕ → List ℕ
encode_uint16 n = bytes_of 2 n

unfoldable pub encode_uint32 : ℕ → List ℕ
encode_uint32 n = bytes_of 4 n

unfoldable pub encode_int16 : ℤ → List ℕ
encode_int16 n = bytes_of 2 (short_bits n)

-- A string of C: what stands before the first byte 0. `strlen` counts it.
abbrev pub c_string : List ℕ → List ℕ
c_string [] = []
c_string (c ∷ cs) = if c == 0 then [] else c ∷ c_string cs

abbrev pub terminated : List ℕ → List ℕ
terminated str = c_string str ++ 0 ∷ []

-- `none` is nil.
unfoldable pub encode_string : Option (List ℕ) → List ℕ
unfolding encode_uint32
encode_string none = encode_uint32 0
encode_string (some str) = encode_uint32 (length (terminated str)) ++ terminated str

unfoldable pub encode_header : (maj min : ℕ) → List ℕ
encode_header maj min = signature ++ (maj % 256) ∷ (min % 256) ∷ 0 ∷ 0 ∷ []

-- The compiler's tables. `op` is the place of the instruction's name in `instruction_set`, from 0 on.
pub record FuncInstruction : Type 0 where
  pub op : ℕ
  pub param1 : Option ℕ
  pub param2 : Option ℤ

pub data Atom (N : Type 0) : Type 0 where
  text : List ℕ → Atom N
  num : N → Atom N
  bool : Bool → Atom N

pub record Up : Type 0 where
  pub level : ℕ
  pub id : ℕ

mutual
  pub data Func (N : Type 0) : Type 0 where
    func :
        (instructions : List FuncInstruction) (const : List (Atom N)) (up : List Up)
        (prot : Funcs N) (name : Option (List ℕ)) (linenr : List ℕ)
        → Func N

  pub data Funcs (N : Type 0) : Type 0 where
    nil : Funcs N
    cons : Func N → Funcs N → Funcs N

-- `v or 0`
abbrev pub or_zero : Option ℕ → ℕ
or_zero none = 0
or_zero (some n) = n

abbrev pub or_pos_zero : Option ℤ → ℤ
or_pos_zero none = pos 0
or_pos_zero (some n) = n

unfoldable pub write_instruction : FuncInstruction → List ℕ
unfolding encode_uint8 encode_int16
write_instruction v =
    encode_uint8 v.op ++ encode_uint8 (or_zero v.param1) ++ encode_int16 (or_pos_zero v.param2)

abbrev pub nil_text : List ℕ
nil_text = 110 ∷ 105 ∷ 108 ∷ []

unfoldable pub write_up : Up → List ℕ
unfolding encode_uint16
write_up v = encode_uint16 v.level ++ encode_uint16 v.id

abbrev pub count_funcs : {N : Type 0} → Funcs N → ℕ
count_funcs nil = 0
count_funcs (cons f fs) = suc (count_funcs fs)

module _ {N : Type 0} (double : Representation N) where
  unfoldable pub write_const : Atom N → List ℕ
  unfolding encode_uint8 encode_string
  write_const (text v) =
      if bytes_eq v nil_text then encode_uint8 0 else encode_uint8 4 ++ encode_string (some v)
  write_const (num v) = encode_uint8 3 ++ double.bytes v
  write_const (bool true) = encode_uint8 2
  write_const (bool false) = encode_uint8 1

  unfoldable mutual
    unfolding encode_uint32 encode_string write_instruction write_const write_up

    pub compile_func : Func N → List ℕ
    compile_func (func instructions const up prot name linenr) =
        encode_uint32 (length instructions)
        ++ (concat_map write_instruction instructions
            ++ (encode_uint32 (length const)
                ++ (concat_map write_const const
                    ++ (encode_uint32 (length up)
                        ++ (concat_map write_up up
                            ++ (encode_uint32 (count_funcs prot)
                                ++ (compile_funcs prot
                                    ++ (encode_string name
                                        ++ (encode_uint32 (length linenr)
                                            ++ concat_map encode_uint32 linenr)))))))))

    pub compile_funcs : Funcs N → List ℕ
    compile_funcs nil = []
    compile_funcs (cons f fs) = compile_func f ++ compile_funcs fs

  -- `compile`
  unfoldable pub compile : (maj min : ℕ) → Func N → List ℕ
  unfolding encode_header compile_func
  compile maj min f = encode_header maj min ++ compile_func f
