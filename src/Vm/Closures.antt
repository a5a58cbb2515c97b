-- ===== src/Vm/Closures.antt =====
-- `lambda`, `push_varg` and the global variables of src/vm/core.c.
use saurus.Base.{
  ℕ, zero, suc, ◌+◌, ◌-◌, Option, none, some, List, [], ◌∷◌, ◌++◌, length, take, ◌==◌,
  if◌then◌else◌, Run, ok, raise, fault, fetch, ◌>>=◌, ℤ, reverse, redefined_global, key_not_string,
  no_global,
}
use saurus.HashMap.Table.{map_get, map_insert}
use saurus.Image.{
  Prototype, Prototypes, prototype, no_more, more, Constant, UpvalueRef, InstructionWord,
}
use saurus.Vector.{Vector, vector_push, vector_create_empty}
use saurus.Vm.{Value, object, push_value, su_pop}
use saurus.Vm.Hash.{murmur, value_equality, hash_value}
use saurus.Vm.State.{
  Frame, Function, Heap, Platform, su_string, su_map, su_vector, su_function, su_local, stack_at,
  type_of,
}
use saurus.Vm.Strings.{string_from_db, create_values}

-- The fields of a prototype.
abbrev pub prot_inst : {N : Type 0} → Prototype N → List InstructionWord
prot_inst (prototype inst constants upvalues prot name lineinf) = inst

abbrev pub prot_constants : {N : Type 0} → Prototype N → List (Constant N)
prot_constants (prototype inst constants upvalues prot name lineinf) = constants

abbrev pub prot_upvalues : {N : Type 0} → Prototype N → List UpvalueRef
prot_upvalues (prototype inst constants upvalues prot name lineinf) = upvalues

abbrev pub prot_prot : {N : Type 0} → Prototype N → Prototypes N
prot_prot (prototype inst constants upvalues prot name lineinf) = prot

-- `&prot[i]`, below `num_prot`.
abbrev pub prot_at : {N : Type 0} → Prototypes N → ℕ → Run (Prototype N)
prot_at no_more i = fault
prot_at (more p ps) zero = ok p
prot_at (more p ps) (suc i) = prot_at ps i

module _ {N : Type 0} where
  -- One upvalue: `lv` frames down from the next free frame, the frame's argument `idx`.
  unfoldable pub captured : List Frame → List (Value N) → UpvalueRef → Run (Value N)
  captured frames stack up =
      if up.lv == 0
      then fault
      else fetch frames (up.lv - 1) >>= λ frame. stack_at stack (frame.stack_top + up.idx + 1)

  unfoldable pub captured_all : List Frame → List (Value N) → List UpvalueRef → Run (List (Value N))
  unfolding captured
  captured_all frames stack [] = ok []
  captured_all frames stack (up ∷ ups) =
      captured frames stack up >>= λ v. captured_all frames stack ups >>= λ vs. ok (v ∷ vs)

  -- The new stack and heap.
  unfoldable pub lambda :
      Heap N
      → List Frame
      → List (Value N)
      → Prototype N
      → (narg : ℤ) → Run (List (Value N) × Heap N)
  unfolding captured_all create_values push_value
  lambda heap frames stack prot narg = do
    (constants, heap') ← create_values heap (prot_constants prot)
    upvalues ← captured_all frames stack (prot_upvalues prot)
    let func : Function N = record {
      narg = narg;
      prot = prot;
      constants = constants;
      upvalues = upvalues;
    }
    stack' ← push_value stack (object su_function (length heap'.functions))
    ok (stack', record heap' { functions = heap'.functions ++ func ∷ [] })

  unfoldable pub push_all : Vector (Value N) → List (Value N) → Run (Vector (Value N))
  unfolding vector_push
  push_all vec [] = ok vec
  push_all vec (v ∷ vs) = vector_push vec v >>= λ vec'. push_all vec' vs

  -- `push_varg`: the last `num` values become one vector.
  unfoldable pub push_varg : Heap N → List (Value N) → (num : ℕ) → Run (List (Value N) × Heap N)
  unfolding push_all push_value su_pop vector_create_empty
  push_varg heap stack num = do
    below ← su_pop stack num
    vec ← push_all vector_create_empty (reverse (take num stack))
    stack' ← push_value below (object su_vector (length heap.vectors))
    ok (stack', record heap { vectors = heap.vectors ++ vec ∷ [] })

module _ {N : Type 0} (platform : Platform N) where
  -- `s->globals = map_insert(...)`: a new map.
  unfoldable pub insert_global : Heap N → Value N → (hash : ℕ) → Value N → Run (Heap N)
  unfolding map_insert
  insert_global heap key hash val = do
    m ← fetch heap.maps heap.globals
    m' ← map_insert (value_equality platform) m key hash val
    ok (record heap { maps = heap.maps ++ m' ∷ []; globals = length heap.maps })

  -- "_G"
  abbrev pub global_name : List ℕ
  global_name = 95 ∷ 71 ∷ 0 ∷ []

  unfoldable pub update_global_ref : Heap N → Run (Heap N)
  unfolding string_from_db hash_value insert_global murmur
  update_global_ref heap = do
    (str, heap') ← string_from_db heap (murmur global_name 0) global_name
    let loc = length heap'.locals
    let heap'' : Heap N = record heap' { locals = heap'.locals ++ object su_map heap'.globals ∷ [] }
    hash ← hash_value platform heap'' (object su_string str)
    insert_global heap'' (object su_string str) hash (object su_local loc)

  unfoldable pub find_global : Heap N → Value N → Run (Option (Value N))
  unfolding map_get hash_value
  find_global heap key = do
    m ← fetch heap.maps heap.globals
    hash ← hash_value platform heap key
    map_get (value_equality platform) m key hash

  -- `OP_GETGLOBAL` and `OP_SETGLOBAL`
  unfoldable pub get_global : Heap N → Value N → Run (Value N)
  unfolding find_global
  get_global heap key =
      if type_of key == su_string
      then (find_global heap key >>= λ r. elim r [ none ↦ raise no_global | some v ↦ ok v ])
      else raise key_not_string

  unfoldable pub set_global : Heap N → Value N → Value N → Run (Heap N)
  unfolding find_global insert_global update_global_ref hash_value
  set_global heap key val =
      if type_of key == su_string
      then (find_global heap key >>= λ r. elim r [
        | some v ↦ raise redefined_global
        | none ↦ hash_value platform heap key >>= λ hash.
            insert_global heap key hash val >>= λ heap'. update_global_ref heap'
      ])
      else raise key_not_string
