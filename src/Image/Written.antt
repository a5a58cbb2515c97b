-- ===== src/Image/Written.antt =====
-- The prototype that an image of src/compiler/compile.lua stands for, apart from the bytes.
use saurus.Base.{
  ℕ, ◌-◌, ◌%◌, ◌^◌, ◌≤◌, ◌<◌, ◌≡◌, Option, none, some, List, [], map, length, All, if◌then◌else◌,
}
use saurus.Image.{
  Representation, InstructionWord, UpvalueRef, Constant, cnil, cfalse, ctrue, cnumber, cstring,
  Prototype, Prototypes, prototype, no_more, more,
}
use saurus.Image.Write.{
  short_bits, terminated, FuncInstruction, Atom, text, num, bool, Up, Func, Funcs, func, nil, cons,
  or_zero, or_pos_zero, nil_text, count_funcs,
}
use saurus.Reader.{bytes_eq}

abbrev pub unsigned_bound : ℕ
unsigned_bound = 2 ^ 32

-- Eight bytes hold a double, and give it back.
pub record RepresentationLaws {N : Type 0} (double : Representation N) : Type 0 where
  pub size : (n : N) → length (double.bytes n) ≡ 8
  pub value_bytes : (n : N) → double.value (double.bytes n) ≡ n

-- The prototype that an image stands for. An operand keeps its low bits.
abbrev pub instruction_image : FuncInstruction → InstructionWord
instruction_image v = record {
  id = v.op % 256;
  a = or_zero v.param1 % 256;
  b = short_bits (or_pos_zero v.param2) % 65536;
}

abbrev pub upvalue_image : Up → UpvalueRef
upvalue_image v = record { lv = v.level % 65536; idx = v.id % 65536 }

abbrev pub line_image : ℕ → ℕ
line_image n = n % unsigned_bound

abbrev pub name_image : Option (List ℕ) → List ℕ
name_image none = []
name_image (some str) = terminated str

-- Every count fits in an `unsigned`.
abbrev pub TextFits : List ℕ → Type 0
TextFits str = length (terminated str) < unsigned_bound

abbrev pub NameFits : Option (List ℕ) → Type 0
NameFits none = Unit
NameFits (some str) = TextFits str

module _ {N : Type 0} where
  abbrev pub constant_image : Atom N → Constant N
  constant_image (text v) = if bytes_eq v nil_text then cnil else cstring (terminated v)
  constant_image (num n) = cnumber n
  constant_image (bool b) = if b then ctrue else cfalse

  abbrev mutual
    pub image_of : Func N → Prototype N
    image_of (func instructions const up prot name linenr) =
        prototype (map instruction_image instructions) (map constant_image const)
          (map upvalue_image up) (images_of prot) (name_image name) (map line_image linenr)

    pub images_of : Funcs N → Prototypes N
    images_of nil = no_more
    images_of (cons f fs) = more (image_of f) (images_of fs)

  abbrev pub AtomFits : Atom N → Type 0
  AtomFits (text v) = TextFits v
  AtomFits (num n) = Unit
  AtomFits (bool b) = Unit

  abbrev mutual
    pub Fits : Func N → Type 0
    Fits (func instructions const up prot name linenr) =
        (length instructions < unsigned_bound)
        × (length const < unsigned_bound)
        × All AtomFits const
        × (length up < unsigned_bound)
        × (count_funcs prot < unsigned_bound)
        × FuncsFit prot
        × NameFits name
        × (length linenr < unsigned_bound)

    pub FuncsFit : Funcs N → Type 0
    FuncsFit nil = Unit
    FuncsFit (cons f fs) = Fits f × FuncsFit fs

  -- The function and those nested in it are at most this deep.
  abbrev mutual
    pub DepthWithin : ℕ → Func N → Type 0
    DepthWithin n (func instructions const up prot name linenr) =
        (1 ≤ n) × DepthsWithin (n - 1) prot

    pub DepthsWithin : ℕ → Funcs N → Type 0
    DepthsWithin n nil = Unit
    DepthsWithin n (cons f fs) = DepthWithin n f × DepthsWithin n fs
