-- ===== src/Vm/Host.antt =====
-- What a program that embeds the machine calls in src/vm/core.c: values on the stack, globals by name, su_init,
-- su_load, and su_call with vm_loop. `STK(-k)` is written with its `k`.
use saurus.Base.{
  ℕ, Bool, true, false, not, Option, none, some, List, [], ◌∷◌, ◌++◌, ◌==◌, if◌then◌else◌, Run, ok,
  raise, fault, fetch, ◌>>=◌, ◌>>◌, ℤ, pos, negsuc, redefined_global,
}
use saurus.HashMap.Table.{map_create_empty}
use saurus.Image.{Parsed, done, failed, aborted, exhausted, Prototype}
use saurus.Image.Load.{su_load}
use saurus.Vm.{Value, nil, boolean, number, object, su_pop}
use saurus.Vm.Api.{push}
use saurus.Vm.Arguments.{stk, su_check_arguments}
use saurus.Vm.Closures.{lambda, find_global, insert_global, update_global_ref}
use saurus.Vm.Hash.{murmur, hash_value}
use saurus.Vm.State.{Heap, Machine, Platform, StringObject, su_string, su_nativefunc}
use saurus.Vm.Strings.{string_from_db}

module _ {N : Type 0} where
  unfoldable pub su_pushnil : Machine N → Run (Machine N)
  unfolding push
  su_pushnil m = push m nil

  unfoldable pub su_pushfunction : Machine N → (f : ℕ) → Run (Machine N)
  unfolding push
  su_pushfunction m f = push m (object su_nativefunc f)

  unfoldable pub su_pushnumber : Machine N → N → Run (Machine N)
  unfolding push
  su_pushnumber m n = push m (number n)

  unfoldable pub su_pushboolean : Machine N → Bool → Run (Machine N)
  unfolding push
  su_pushboolean m b = push m (boolean b)

  unfoldable pub su_pushbytes : Machine N → List ℕ → Run (Machine N)
  unfolding push string_from_db murmur
  su_pushbytes m bytes = do
    (p, heap) ← string_from_db m.heap (murmur bytes 0) bytes
    push (record m { heap = heap }) (object su_string p)

  -- `str` is a C string, without the zero that ends it.
  unfoldable pub su_pushstring : Machine N → (str : List ℕ) → Run (Machine N)
  unfolding su_pushbytes
  su_pushstring m str = su_pushbytes m (str ++ 0 ∷ [])

  abbrev pub boolean_of : Value N → Bool
  boolean_of (boolean b) = b
  boolean_of _ = false

  unfoldable pub su_toboolean : Machine N → (k : ℕ) → Run Bool
  su_toboolean m k = stk m k >>= λ v. ok (boolean_of v)

  -- `none` is `NULL`.
  abbrev pub string_of : Heap N → Value N → Run (Option StringObject)
  string_of heap (object t p) =
      if t == su_string then (fetch heap.string_objects p >>= λ s. ok (some s)) else ok none
  string_of heap _ = ok none

  unfoldable pub su_tostring : Machine N → (k : ℕ) → Run (Option StringObject)
  su_tostring m k = stk m k >>= λ v. string_of m.heap v

module _ {N : Type 0} (platform : Platform N) where
  -- 0.0 for a value that is no number.
  abbrev pub number_of : Value N → N
  number_of (number n) = n
  number_of _ = platform.of_int 0

  unfoldable pub su_tonumber : Machine N → (k : ℕ) → Run N
  su_tonumber m k = stk m k >>= λ v. ok (number_of v)

  unfoldable pub su_tointeger : Machine N → (k : ℕ) → Run ℤ
  unfolding su_tonumber
  su_tointeger m k = su_tonumber m k >>= λ n. platform.to_int n

  unfoldable pub su_pushinteger : Machine N → (i : ℕ) → Run (Machine N)
  unfolding su_pushnumber
  su_pushinteger m i = su_pushnumber m (platform.of_int i)

  -- `name` is a C string. The result says whether there is such a global.
  unfoldable pub su_getglobal : Machine N → (name : List ℕ) → Run (Machine N × Bool)
  unfolding push string_from_db murmur find_global
  su_getglobal m name = do
    (p, heap) ← string_from_db m.heap (murmur (name ++ 0 ∷ []) 0) (name ++ 0 ∷ [])
    v ← find_global platform heap (object su_string p)
    elim v [
      | none ↦ ok (record m { heap = heap }, false)
      | some v ↦ push (record m { heap = heap }) v >>= λ m'. ok (m', true)
    ]

  -- Unless it may replace a global, it has to be new.
  abbrev pub check_new : Heap N → (replace : Bool) → Value N → Run (Unit {0})
  check_new heap true key = ok tt
  check_new heap false key = find_global platform heap key >>= λ v. elim v [
    | none ↦ ok tt
    | some v ↦ raise redefined_global
  ]

  unfoldable pub su_setglobal : Machine N → (replace : Bool) → (name : List ℕ) → Run (Machine N)
  unfolding string_from_db murmur find_global insert_global update_global_ref hash_value su_pop
  su_setglobal m replace name = do
    (p, heap) ← string_from_db m.heap (murmur (name ++ 0 ∷ []) 0) (name ++ 0 ∷ [])
    hash ← hash_value platform heap (object su_string p)
    check_new heap replace (object su_string p)
    val ← stk m 1
    heap' ← insert_global platform heap (object su_string p) hash val
    heap'' ← update_global_ref platform heap'
    stack ← su_pop m.stack 1
    ok (record m { stack = stack; heap = heap'' })

  abbrev pub empty_heap : Heap N
  empty_heap = record {
    functions = [];
    string_objects = [];
    vectors = [];
    maps = map_create_empty ∷ [];
    locals = [];
    seqs = [];
    strings = map_create_empty;
    globals = 0;
  }

  -- No function runs at first.
  unfoldable pub su_init : Run (Machine N)
  unfolding update_global_ref
  su_init = update_global_ref platform empty_heap >>= λ heap.
      ok (record { pc = 65535; narg = 0; stack = []; frames = []; func = 0; heap = heap })

  -- The end of `su_load`: a prototype becomes a function on the stack. The result says whether it did.
  abbrev pub load_function : Machine N → Parsed (Prototype N) → Run (Machine N × Bool)
  load_function m (done prot buffer chunks) =
      lambda m.heap m.frames m.stack prot (negsuc 0) >>= λ r.
      ok (record m { stack = r.0; heap = r.1 }, true)
  load_function m failed = ok (m, false)
  load_function m aborted = fault
  load_function m exhausted = fault

  unfoldable pub load_image :
      Machine N → (fuel : ℕ) → (chunks : List (List ℕ)) → Run (Machine N × Bool)
  unfolding su_load lambda
  load_image m fuel chunks = su_load platform.memory fuel chunks >>= λ r. load_function m r

  -- `load` of src/vm/lib.c: the string is the only chunk. What it pushes is what `su_load` returns as a truth
  -- value, where 0 is success.
  abbrev pub image_bytes : Option StringObject → Run (List ℕ)
  image_bytes none = fault
  image_bytes (some s) = ok s.str

  unfoldable pub native_load : Machine N → (fuel : ℕ) → Run (Machine N × Bool)
  unfolding su_check_arguments su_tostring load_image su_pushboolean
  native_load m fuel = do
    su_check_arguments m (pos 1) (su_string ∷ [])
    s ← su_tostring m 1
    bytes ← image_bytes s
    (m', loaded) ← load_image m fuel (bytes ∷ [])
    m'' ← su_pushboolean m' (not loaded)
    ok (m'', true)
