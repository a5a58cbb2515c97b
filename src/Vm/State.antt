-- ===== src/Vm/State.antt =====
-- The state of the machine of src/vm/core.c and src/vm/intern.h with its objects. A pointer to an object is
-- its place in the list of the objects of its type. The collector frees what can not be reached, so no list
-- shrinks here. `s->frame` is `FRAME()` and `s->prot` the prototype of the running function at every
-- instruction, and are not kept.
use saurus.Base.{
  ℕ, ◌-◌, Bool, List, length, drop, ltb, leb, if◌then◌else◌, Run, ok, fault, fetch, ℤ,
}
use saurus.HashMap.Table.{HashTable}
use saurus.Image.{Prototype, Representation}
use saurus.Vector.{Vector}
use saurus.Vm.{Value, nil, boolean, number, object, Double}

-- `su_object_type`
abbrev pub su_nil : ℕ
su_nil = 1

abbrev pub su_boolean : ℕ
su_boolean = 2

abbrev pub su_string : ℕ
su_string = 3

abbrev pub su_number : ℕ
su_number = 4

abbrev pub su_seq : ℕ
su_seq = 5

abbrev pub su_function : ℕ
su_function = 6

abbrev pub su_nativefunc : ℕ
su_nativefunc = 7

abbrev pub su_vector : ℕ
su_vector = 8

abbrev pub su_map : ℕ
su_map = 9

abbrev pub su_local : ℕ
su_local = 10

-- `MAX_CALLS`
abbrev pub max_calls : ℕ
max_calls = 128

abbrev pub type_of {ℓ} : {N : Type ℓ} → Value N → ℕ
type_of nil = su_nil
type_of (boolean b) = su_boolean
type_of (number n) = su_number
type_of (object t p) = t

-- `frame_t`
pub record Frame : Type 0 where
  pub func : ℕ
  pub stack_top : ℕ
  pub ret_addr : ℕ

-- `struct function`
pub record Function (N : Type 0) : Type 0 where
  pub narg : ℤ
  pub prot : Prototype N
  pub constants : List (Value N)
  pub upvalues : List (Value N)

-- `string_t`
pub record StringObject : Type 0 where
  pub hash : ℕ
  pub str : List ℕ

-- `cell_seq_t`, and `it_seq_t` with the vector or the string that it goes through.
pub data SeqObject (N : Type 0) : Type 0 where
  cell_object : (first rest : Value N) → SeqObject N
  vector_iterator string_iterator : (obj idx : ℕ) → SeqObject N

-- `strings` is the table of interned strings, from a hash to a string; `globals` points to a map.
pub record Heap (N : Type 0) : Type 0 where
  pub functions : List (Function N)
  pub string_objects : List StringObject
  pub vectors : List (Vector (Value N))
  pub maps : List (HashTable (Value N) (Value N))
  pub locals : List (Value N)
  pub seqs : List (SeqObject N)
  pub strings : HashTable ℕ ℕ
  pub globals : ℕ

-- The last value of `stack` and the last frame of `frames` come first. `func` is the variable of `vm_loop`.
pub record Machine (N : Type 0) : Type 0 where
  pub pc : ℕ
  pub narg : ℕ
  pub stack : List (Value N)
  pub frames : List Frame
  pub func : ℕ
  pub heap : Heap N

-- What the machine takes from its surroundings: the arithmetic of doubles and how they stand in memory, the
-- bytes of the pointer to an object, whether bytes of two values that were never written are equal, and the
-- native functions, each with what it returns.
pub record Platform (N : Type 0) : Type 0 where
  pub double : Double N
  pub equal : N → N → Bool
  pub to_int : N → Run ℤ
  pub of_int : ℕ → N
  pub memory : Representation N
  pub address : (type pointer : ℕ) → List ℕ
  pub unwritten_eq : Value N → Value N → Bool
  pub native : ℕ → Machine N → (narg : ℕ) → Run (Machine N × Bool)

module _ {ℓ} {A : Type ℓ} where
  -- `s->stack[i]`. What lies above the top is left over from earlier calls.
  abbrev pub stack_at : List A → ℕ → Run A
  stack_at stack i = if ltb i (length stack) then fetch stack (length stack - 1 - i) else fault

  -- The stack with its top set to `n`, which may not be above it.
  abbrev pub cut_to : List A → ℕ → Run (List A)
  cut_to stack n = if leb n (length stack) then ok (drop (length stack - n) stack) else fault
