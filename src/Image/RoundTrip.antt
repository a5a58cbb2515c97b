-- ===== src/Image/RoundTrip.antt =====
-- `read_prototype` of src/vm/core.c on what `compile_func` of src/compiler/compile.lua writes.
use saurus.Base.{
  ℕ, zero, suc, ◌-◌, ◌%◌, ◌<◌, ◌≡◌, refl, ap, ap₂, subst, true, false, Option, none, some, List, [],
  ◌∷◌, ◌++◌, map, length, All-map, All, append-nil, Bool-cases, inl, inr, arith,
}
use saurus.Image.{
  Representation, Parser, pure, ◌>>=◌, read_bytes, read_unsigned, read_instruction, read_upvalue,
  read_string, repeat, Constant, cnil, cfalse, ctrue, cnumber, cstring, Prototype, prototype, more,
  array, read_constant, constant_body, read_prototype, word, first_byte, instruction_of, upvalue_of,
}
use saurus.Image.Write.{
  bytes_of, short_bits, encode_uint32, terminated, encode_string, FuncInstruction, Atom, text, num,
  bool, Up, Func, Funcs, func, nil, cons, or_zero, or_pos_zero, write_instruction, nil_text,
  write_up, count_funcs, write_const, compile_func, compile_funcs,
}
use saurus.Image.Written.{
  unsigned_bound, RepresentationLaws, instruction_image, upvalue_image, line_image, name_image,
  NameFits, constant_image, AtomFits, image_of, images_of, Fits, FuncsFit, DepthWithin,
  DepthsWithin,
}
use saurus.Image.Decodes.{Decodes, pure-Decodes, bind-Decodes, repeat-Decodes, read_bytes-Decodes}
use saurus.Reader.{bytes_eq}

module _ {A : Type 0} where
  -- A read whose value is made into another.
  then_pure :
      {B : Type 0} (p : Parser A) (f : A → B) (e : List ℕ) (a : A)
      → Decodes p e a
      → Decodes (p >>= λ x. pure (f x)) e (f a)
  then_pure p f e a d =
      subst (λ l. Decodes (p >>= λ x. pure (f x)) l (f a)) (append-nil e)
        (bind-Decodes p (λ x. pure (f x)) e [] a (f a) d (pure-Decodes (f a)))

word_four : (n : ℕ) → word (bytes_of 4 n) ≡ n % unsigned_bound
word_four n = omega arith

word_two : (n : ℕ) → word (bytes_of 2 n) ≡ n % 65536
word_two n = omega arith

line-Decodes : (n : ℕ) → Decodes read_unsigned (encode_uint32 n) (line_image n)
unfolding read_unsigned encode_uint32
line-Decodes n = subst (Decodes read_unsigned (bytes_of 4 n)) (word_four n) (
    then_pure (read_bytes 4) word (bytes_of 4 n) (bytes_of 4 n) (read_bytes-Decodes (bytes_of 4 n)))

count-Decodes : (n : ℕ) → n < unsigned_bound → Decodes read_unsigned (encode_uint32 n) n
count-Decodes n h =
    let e : n % unsigned_bound ≡ n = omega arith in
    subst (Decodes read_unsigned (encode_uint32 n)) e (line-Decodes n)

instruction-Decodes :
    (v : FuncInstruction) → Decodes read_instruction (write_instruction v) (instruction_image v)
unfolding read_instruction write_instruction
instruction-Decodes v =
    let bytes =
      (v.op % 256) ∷ (or_zero v.param1 % 256) ∷ bytes_of 2 (short_bits (or_pos_zero v.param2)) in
    subst (Decodes read_instruction bytes)
      (ap (λ (b : ℕ). record { id = v.op % 256; a = or_zero v.param1 % 256; b = b })
        (word_two (short_bits (or_pos_zero v.param2))))
      (then_pure (read_bytes 4) instruction_of bytes bytes (read_bytes-Decodes bytes))

upvalue-Decodes : (v : Up) → Decodes read_upvalue (write_up v) (upvalue_image v)
unfolding read_upvalue write_up
upvalue-Decodes v =
    let bytes = bytes_of 2 v.level ++ bytes_of 2 v.id in
    subst (Decodes read_upvalue bytes)
      (ap₂ (λ (a b : ℕ). record { lv = a; idx = b }) (word_two v.level) (word_two v.id))
      (then_pure (read_bytes 4) upvalue_of bytes bytes (read_bytes-Decodes bytes))

string-Decodes :
    (str : List ℕ)
    → length str < unsigned_bound
    → Decodes read_string (encode_uint32 (length str) ++ str) str
unfolding read_string
string-Decodes str h =
    bind-Decodes read_unsigned (λ size. read_bytes size) (encode_uint32 (length str)) str
      (length str) str (count-Decodes (length str) h) (read_bytes-Decodes str)

name-Decodes :
    (name : Option (List ℕ))
    → NameFits name
    → Decodes read_string (encode_string name) (name_image name)
unfolding encode_string
name-Decodes none h = string-Decodes [] (omega arith)
name-Decodes (some str) h = string-Decodes (terminated str) h

each {κ} : {X : Type κ} {P : X → Type 0} → ((x : X) → P x) → (xs : List X) → All P xs
each h [] = tt
each h (x ∷ xs) = (h x, each h xs)

module _ {N : Type 0} (double : Representation N) (laws : RepresentationLaws double) where
  tagged :
      (id : ℕ) (e : List ℕ) (a : Constant N)
      → Decodes (constant_body double id) e a
      → Decodes (read_constant double) (id ∷ e) a
  unfolding read_constant
  tagged id e a d =
      bind-Decodes (read_bytes 1) (λ bytes. constant_body double (first_byte bytes)) (id ∷ []) e
        (id ∷ []) a (read_bytes-Decodes (id ∷ [])) d

  number-Decodes : (n : N) → Decodes (constant_body double 3) (double.bytes n) (cnumber n)
  unfolding constant_body
  number-Decodes n =
      let d =
        subst (λ k. Decodes (read_bytes k) (double.bytes n) (double.bytes n)) (laws.size n)
          (read_bytes-Decodes (double.bytes n)) in
      subst (Decodes (constant_body double 3) (double.bytes n)) (ap cnumber (laws.value_bytes n)) (
        then_pure (read_bytes 8) (λ bytes. cnumber (double.value bytes)) (double.bytes n)
          (double.bytes n) d)

  constant-Decodes :
      (v : Atom N)
      → AtomFits v
      → Decodes (read_constant double) (write_const double v) (constant_image v)
  unfolding write_const constant_body encode_string
  constant-Decodes (text v) h = elim (Bool-cases (bytes_eq v nil_text)) [
    | inl e ↦ rw e (tagged 0 [] cnil (pure-Decodes cnil))
    | inr e ↦ rw e (
        tagged 4 (encode_string (some v)) (cstring (terminated v)) (
          then_pure read_string cstring (encode_string (some v)) (terminated v)
            (string-Decodes (terminated v) h)))
  ]
  constant-Decodes (num n) h = tagged 3 (double.bytes n) (cnumber n) (number-Decodes n)
  constant-Decodes (bool true) h = tagged 2 [] ctrue (pure-Decodes ctrue)
  constant-Decodes (bool false) h = tagged 1 [] cfalse (pure-Decodes cfalse)

  constants-Decodes :
      (vs : List (Atom N))
      → All AtomFits vs
      → All (λ v. Decodes (read_constant double) (write_const double v) (constant_image v)) vs
  constants-Decodes vs h =
      All-map AtomFits
        (λ v. Decodes (read_constant double) (write_const double v) (constant_image v))
        constant-Decodes vs h

  abbrev prototypes_of : Funcs N → List (Prototype N)
  prototypes_of nil = []
  prototypes_of (cons f fs) = image_of f ∷ prototypes_of fs

  array-prototypes_of : (fs : Funcs N) → array (prototypes_of fs) ≡ images_of fs
  unfolding array
  array-prototypes_of nil = refl
  array-prototypes_of (cons f fs) = ap (more (image_of f)) (array-prototypes_of fs)

  -- The parts of a prototype around the nested ones.
  around :
      (fuel : ℕ) (instructions : List FuncInstruction) (const : List (Atom N)) (up : List Up)
      (prot : Funcs N) (name : Option (List ℕ)) (linenr : List ℕ)
      → Fits (func instructions const up prot name linenr)
      → Decodes
          (repeat (count_funcs prot) (read_prototype double fuel))
          (compile_funcs double prot)
          (prototypes_of prot)
      → Decodes
          (read_prototype double (suc fuel))
          (compile_func double (func instructions const up prot name linenr))
          (image_of (func instructions const up prot name linenr))
  unfolding read_prototype compile_func
  around fuel instructions const up prot name linenr (fi, fc, fa, fu, fp, ff, fn, fl) d =
      subst
        (λ ps.
          Decodes (read_prototype double (suc fuel))
            (compile_func double (func instructions const up prot name linenr))
            (prototype (map instruction_image instructions) (map constant_image const)
              (map upvalue_image up) ps (name_image name) (map line_image linenr)))
        (array-prototypes_of prot)
        (bind-Decodes _ _ _ _ _ _ (count-Decodes (length instructions) fi) (
          bind-Decodes _ _ _ _ _ _
            (repeat-Decodes read_instruction write_instruction instruction_image instructions
              (each instruction-Decodes instructions))
            (bind-Decodes _ _ _ _ _ _ (count-Decodes (length const) fc) (
              bind-Decodes _ _ _ _ _ _
                (repeat-Decodes (read_constant double) (write_const double) constant_image const
                  (constants-Decodes const fa))
                (bind-Decodes _ _ _ _ _ _ (count-Decodes (length up) fu) (
                  bind-Decodes _ _ _ _ _ _
                    (repeat-Decodes read_upvalue write_up upvalue_image up
                      (each upvalue-Decodes up))
                    (bind-Decodes _ _ _ _ _ _ (count-Decodes (count_funcs prot) fp) (
                      bind-Decodes _ _ _ _ _ _ d (
                        bind-Decodes _ _ _ _ _ _ (name-Decodes name fn) (
                          bind-Decodes _ _ _ _ _ _ (count-Decodes (length linenr) fl) (
                            then_pure _ _ _ _ (
                              repeat-Decodes read_unsigned encode_uint32 line_image linenr
                                (each line-Decodes linenr)))))))))))))

  mutual
    unfolding repeat compile_funcs

    nested-Decodes :
        (fuel : ℕ) (fs : Funcs N)
        → FuncsFit fs
        → DepthsWithin fuel fs
        → Decodes
            (repeat (count_funcs fs) (read_prototype double fuel))
            (compile_funcs double fs)
            (prototypes_of fs)
    nested-Decodes fuel nil h d = pure-Decodes {A = List (Prototype N)} []
    nested-Decodes fuel (cons f fs) (hf, hs) (df, ds) =
        bind-Decodes _ _ _ _ _ _ (func-Decodes fuel f hf df)
          (then_pure _ (λ ps. image_of f ∷ ps) _ _ (nested-Decodes fuel fs hs ds))

    pub func-Decodes :
        (fuel : ℕ) (f : Func N)
        → Fits f
        → DepthWithin fuel f
        → Decodes (read_prototype double fuel) (compile_func double f) (image_of f)
    func-Decodes zero (func instructions const up prot name linenr) h d =
        absurd (omega (arith, d.0))
    func-Decodes (suc fuel) (func instructions const up prot name linenr) h d =
        let e : suc fuel - 1 ≡ fuel = omega arith in
        around fuel instructions const up prot name linenr h
          (nested-Decodes fuel prot h.5 (subst (λ n. DepthsWithin n prot) e d.1))
