-- ===== src/Gc.antt =====
-- The mark and sweep collector of src/vm/gc.c. An object has an address, and the list of objects is
-- the one that starts at `gc_root`. The gray stack is the array `gc_gray` with its last entry first.
pub mod Flags
pub mod Mark
pub mod Gray
pub mod Scan
pub mod Sweep
pub mod Cycle
pub mod Collect
pub mod Insert
use saurus.Base.{
  ℕ, zero, suc, ◌+◌, ◌-◌, ◌%◌, ◌^◌, Bool, true, false, Option, none, some, List, [], ◌∷◌, ◌++◌,
  length, ltb, ◌==◌, if◌then◌else◌, Run, ok, fault, ◌>>=◌,
}

-- `GC_FLAG_TRANS`, `GC_FLAG_WHITE`, `GC_FLAG_GRAY`, `GC_FLAG_BLACK`
pub data Flag : Type 0 where
  flag_trans flag_white flag_gray flag_black : Flag

abbrev pub is_white : Flag → Bool
is_white flag_trans = false
is_white flag_white = true
is_white flag_gray = false
is_white flag_black = false

abbrev pub is_black : Flag → Bool
is_black flag_trans = false
is_black flag_white = false
is_black flag_gray = false
is_black flag_black = true

-- A value, as the collector sees it.
pub data GcValue : Type 0 where
  immediate : GcValue
  object : ℕ → GcValue

-- What an object refers to, by its type. A function's prototype is `none` if it is part of another
-- prototype: its type is SU_INV, and `scan` reads that type, but does not follow the pointer. So that
-- pointer is no reference here, and nothing is said of the prototype around it. The types that `scan` passes over are `other`.
pub data Body : Type 0 where
  su_local : GcValue → Body
  su_vector : (root tail : ℕ) → Body
  vector_node : List GcValue → Body
  su_function : Option ℕ → (constants upvalues : List GcValue) → Body
  su_map : (root : ℕ) → Body
  map_collision : (leaves : ℕ) → Body
  map_full : (nodes : ℕ) → Body
  map_idx : (nodes : ℕ) → Body
  map_leaf : (key val : GcValue) → Body
  cell_seq : (first rest : GcValue) → Body
  it_seq : (obj : ℕ) → Body
  other : Body

pub record Object : Type 0 where
  pub address : ℕ
  pub flags : Flag
  pub body : Body

pub record GcState : Type 0 where
  pub objects : List Object
  pub gray_stack : List ℕ
  pub num_objects : ℕ
  -- The values on the stack, and the objects of `globals` and `strings` unless `globals` is nil.
  pub stack : List GcValue
  pub globals : Option (ℕ × ℕ)

-- `gc_insert_object`: `num_objects` is unsigned.
unfoldable pub gc_insert_object : GcState → ℕ → Body → GcState
gc_insert_object s r body = record {
  objects = record { address = r; flags = flag_trans; body = body } ∷ s.objects;
  gray_stack = s.gray_stack;
  num_objects = (s.num_objects + 1) % 2 ^ 32;
  stack = s.stack;
  globals = s.globals;
}

-- `GC_GRAY_SIZE` and `ALIVE_OBJECTS`
abbrev pub gray_size : ℕ
gray_size = 512

abbrev pub alive_objects : ℕ
alive_objects = 100000

-- The `if (child) add_to_gray(s, child)` of `get_gc_object`.
abbrev pub get_gc_object : GcValue → List ℕ
get_gc_object immediate = []
get_gc_object (object r) = r ∷ []

abbrev pub get_gc_objects : List GcValue → List ℕ
get_gc_objects [] = []
get_gc_objects (v ∷ vs) = get_gc_object v ++ get_gc_objects vs

abbrev pub own_prototype : Option ℕ → List ℕ
own_prototype none = []
own_prototype (some r) = r ∷ []

-- The calls of `add_to_gray` for an object, in their order.
unfoldable pub children : Body → List ℕ
children (su_local v) = get_gc_object v
children (su_vector root tail) = root ∷ tail ∷ []
children (vector_node slots) = get_gc_objects slots
children (su_function prot constants upvalues) =
    own_prototype prot ++ get_gc_objects constants ++ get_gc_objects upvalues
children (su_map root) = root ∷ []
children (map_collision leaves) = leaves ∷ []
children (map_full nodes) = nodes ∷ []
children (map_idx nodes) = nodes ∷ []
children (map_leaf key val) = get_gc_object key ++ get_gc_object val
children (cell_seq first rest) = get_gc_object first ++ get_gc_object rest
children (it_seq obj) = obj ∷ []
children other = []

-- A read through a pointer. An object that is not there was freed.
abbrev pub deref : List Object → ℕ → Run Object
deref [] r = fault
deref (o ∷ os) r = let rest = deref os r in if r == o.address then ok o else rest

abbrev pub with_flags : Object → Flag → Object
with_flags o c = record { address = o.address; flags = c; body = o.body }

-- `obj->flags = c`
abbrev pub set_flags : List Object → ℕ → Flag → List Object
set_flags [] r c = []
set_flags (o ∷ os) r c =
    let rest = set_flags os r c in if r == o.address then with_flags o c ∷ os else o ∷ rest

-- The objects and the gray stack, which is all that marking changes.
pub record Marking : Type 0 where
  pub objects : List Object
  pub gray_stack : List ℕ

-- The assertion lets one entry more through than the array has; writing it is undefined.
unfoldable pub add_to_gray : Marking → ℕ → Run Marking
add_to_gray m r = deref m.objects r >>= λ o.
    if is_white o.flags
    then (if ltb (length m.gray_stack) gray_size
        then ok
            (record { objects = set_flags m.objects r flag_gray; gray_stack = r ∷ m.gray_stack })
        else fault)
    else ok m

unfoldable pub gray_all : Marking → List ℕ → Run Marking
unfolding add_to_gray
gray_all m [] = ok m
gray_all m (r ∷ rs) = add_to_gray m r >>= λ m'. gray_all m' rs

-- `scan`, one unit of fuel for each turn of its loop.
unfoldable pub scan : ℕ → List Object → List ℕ → Run Marking
unfolding gray_all children
scan f objects [] = ok (record { objects = objects; gray_stack = [] })
scan zero objects (r ∷ rest) = fault
scan (suc f) objects (r ∷ rest) = deref objects r >>= λ o. elim (is_black o.flags) [
  | true ↦ scan f objects rest
  | false ↦
      gray_all (record { objects = set_flags objects r flag_black; gray_stack = rest })
        (children o.body)
      >>= λ m. scan f m.objects m.gray_stack
]

-- `begin`
abbrev pub roots : GcState → List ℕ
roots s = get_gc_objects s.stack ++ elim s.globals [ none ↦ [] | some (g, t) ↦ g ∷ t ∷ [] ]

unfoldable pub begin : GcState → Run Marking
unfolding gray_all
begin s = gray_all (record { objects = s.objects; gray_stack = [] }) (roots s)

-- `end`: what is left of the list, and how many objects were freed.
unfoldable pub sweep : List Object → List Object
sweep [] = []
sweep (o ∷ os) =
    let rest = sweep os in if is_white o.flags then rest else with_flags o flag_white ∷ rest

unfoldable pub freed : List Object → ℕ
freed [] = 0
freed (o ∷ os) = let rest = freed os in if is_white o.flags then suc rest else rest

unfoldable pub end : GcState → Marking → GcState
unfolding sweep freed
end s m = record {
  objects = sweep m.objects;
  gray_stack = m.gray_stack;
  num_objects = s.num_objects - freed m.objects;
  stack = s.stack;
  globals = s.globals;
}

-- `scan` on as much fuel as the stack and the objects can take.
abbrev pub scan_all : Marking → Run Marking
scan_all m = scan (length m.gray_stack + length m.objects) m.objects m.gray_stack

-- The state with another marking.
abbrev pub with_marking : GcState → Marking → GcState
with_marking s m = record {
  objects = m.objects;
  gray_stack = m.gray_stack;
  num_objects = s.num_objects;
  stack = s.stack;
  globals = s.globals;
}

-- The two ends of `gc_trace`, which depend on whether the gray stack is empty.
abbrev pub begin_if_done : GcState → List ℕ → Run Marking
begin_if_done s [] = begin s
begin_if_done s (r ∷ rest) = ok (record { objects = s.objects; gray_stack = r ∷ rest })

abbrev pub end_if_done : GcState → Marking → List ℕ → GcState
end_if_done s m [] = end s m
end_if_done s m (r ∷ rest) = with_marking s m

unfoldable pub gc_trace : GcState → Run GcState
unfolding begin scan end
gc_trace s =
    let step = begin_if_done s s.gray_stack >>= λ m.
    scan_all m >>= λ m'. ok (end_if_done s m' m'.gray_stack) in
    if ltb alive_objects s.num_objects then step else ok s

-- The first loop of `su_gc`, on fuel: below `ALIVE_OBJECTS` objects `gc_trace` does nothing, and the
-- loop would not end.
unfoldable pub drain : ℕ → GcState → List ℕ → Run GcState
unfolding gc_trace
drain f s [] = ok s
drain zero s (r ∷ rest) = fault
drain (suc f) s (r ∷ rest) = gc_trace s >>= λ s'. drain f s' s'.gray_stack

-- `su_gc`. A call of `scan` leaves the gray stack empty, so its second loop has one turn at most.
unfoldable pub su_gc : ℕ → GcState → Run GcState
unfolding drain begin scan end
su_gc f s = do s' ← drain f s s.gray_stack; m ← begin s'; m' ← scan_all m; ok (end s' m')
