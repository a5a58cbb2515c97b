-- ===== src/Vm/Api.antt =====
-- The functions of src/vm/core.c and src/vm/ref.c by which native code works on the stack. An object of another
-- type, read as a map, a vector, a number or a reference, is undefined. `STK(-k)` is written with its `k`.
use saurus.Base.{
  ℕ, zero, suc, ◌%◌, ◌<◌, ◌≡◌, refl, lt→ltb, Bool, true, false, Option, none, some, List, [], ◌∷◌,
  ◌++◌, length, take, drop, store, reverse, leb, ◌==◌, if◌then◌else◌, Run, ok, raise, fault, fetch,
  ◌>>=◌, ◌>>◌, assert, odd_pairs, ℤ,
}
use saurus.HashMap.Table.{
  HashTable, map_create_empty, map_get, map_insert, map_remove, map_length, insert_keeps,
  remove_keeps,
}
use saurus.Vector.{Vector, vector_create_empty, vector_pop, vector_set, vector_index, vector_length}
use saurus.Vm.{Value, number, object, push_value, su_pop, stack_size}
use saurus.Vm.Arguments.{stk}
use saurus.Vm.Closures.{push_all}
use saurus.Vm.Hash.{value_equality, hash_value}
use saurus.Vm.State.{Heap, Machine, Platform, su_map, su_vector, su_local}

module _ {N : Type 0} where
  unfoldable pub push : Machine N → Value N → Run (Machine N)
  unfolding push_value
  push m v = push_value m.stack v >>= λ stack. ok (record m { stack = stack })

  pub push-ok :
      (m : Machine N) (v : Value N)
      → length m.stack < stack_size
      → push m v ≡ ok (record m { stack = v ∷ m.stack })
  unfolding push push_value
  push-ok m v h = rw (lt→ltb (length m.stack) stack_size h) refl

  unfoldable pub su_copy : Machine N → (k : ℕ) → Run (Machine N)
  unfolding push
  su_copy m k = stk m k >>= λ v. push m v

  -- `obj.m`, `obj.vec`, `obj.loc` and `obj.num`.
  abbrev pub as_map : Heap N → Value N → Run (HashTable (Value N) (Value N))
  as_map heap (object t p) = if t == su_map then fetch heap.maps p else fault
  as_map heap _ = fault

  abbrev pub as_vector : Heap N → Value N → Run (Vector (Value N))
  as_vector heap (object t p) = if t == su_vector then fetch heap.vectors p else fault
  as_vector heap _ = fault

  abbrev pub as_number : Value N → Run N
  as_number (number n) = ok n
  as_number _ = fault

  abbrev pub as_local : Value N → Run ℕ
  as_local (object t p) = if t == su_local then ok p else fault
  as_local _ = fault

  -- A new map or vector, pushed.
  abbrev pub push_map : Machine N → HashTable (Value N) (Value N) → Run (Machine N)
  push_map m x =
      push (record m { heap = record m.heap { maps = m.heap.maps ++ x ∷ [] } })
        (object su_map (length m.heap.maps))

  abbrev pub with_vector : Heap N → Vector (Value N) → Heap N
  with_vector heap x = record heap { vectors = heap.vectors ++ x ∷ [] }

  abbrev pub push_vector : Machine N → Vector (Value N) → Run (Machine N)
  push_vector m x =
      push (record m { heap = with_vector m.heap x }) (object su_vector (length m.heap.vectors))

  -- src/vm/ref.c
  unfoldable pub su_ref_local : Machine N → (k : ℕ) → Run (Machine N)
  unfolding push
  su_ref_local m k = do
    v ← stk m k
    push (record m { heap = record m.heap { locals = m.heap.locals ++ v ∷ [] } })
        (object su_local (length m.heap.locals))

  unfoldable pub su_unref_local : Machine N → (k : ℕ) → Run (Machine N)
  unfolding push
  su_unref_local m k = do
    v ← stk m k
    loc ← as_local v
    content ← fetch m.heap.locals loc
    push m content

  unfoldable pub su_set_local : Machine N → (k : ℕ) → Run (Machine N)
  unfolding su_pop
  su_set_local m k = do
    v ← stk m k
    loc ← as_local v
    content ← stk m 1
    locals ← store m.heap.locals loc content
    stack ← su_pop m.stack 1
    ok (record m { stack = stack; heap = record m.heap { locals = locals } })

  unfoldable pub su_vector_length : Machine N → (k : ℕ) → Run ℕ
  unfolding vector_length
  su_vector_length m k = stk m k >>= λ v. as_vector m.heap v >>= λ vec. ok (vector_length vec)

  unfoldable pub su_map_length : Machine N → (k : ℕ) → Run ℕ
  unfolding map_length
  su_map_length m k = stk m k >>= λ v. as_map m.heap v >>= λ x. ok (map_length x)

  -- `su_vector`, and `su_vector_push` on the vector at `k`, which stays the same object without values.
  unfoldable pub su_make_vector : Machine N → (num : ℕ) → Run (Machine N)
  unfolding push_all vector_create_empty push
  su_make_vector m num = do
    assert (leb num (length m.stack))
    vec ← push_all vector_create_empty (reverse (take num m.stack))
    push_vector m vec

  unfoldable pub su_vector_push : Machine N → (k num : ℕ) → Run (Machine N)
  unfolding push_all push
  su_vector_push m k num = do
    v ← stk m k
    if num == 0
        then push m v
        else (as_vector m.heap v >>= λ vec.
            assert (leb num (length m.stack))
            >> (push_all vec (reverse (take num m.stack)) >>= λ vec'. push_vector m vec'))

  unfoldable pub pop_times : ℕ → Vector (Value N) → Run (Vector (Value N))
  unfolding vector_pop
  pop_times zero vec = ok vec
  pop_times (suc n) vec = vector_pop vec >>= λ vec'. pop_times n vec'

module _ {N : Type 0} (platform : Platform N) where
  unfoldable pub su_vector_index : Machine N → (k : ℕ) → Run (Machine N)
  unfolding vector_index
  su_vector_index m k = do
    v ← stk m k
    vec ← as_vector m.heap v
    idx ← stk m 1
    n ← as_number idx
    i ← platform.to_int n
    x ← vector_index vec i
    ok (record m { stack = x ∷ drop 1 m.stack })

  unfoldable pub su_vector_set : Machine N → (k : ℕ) → Run (Machine N)
  unfolding vector_set
  su_vector_set m k = do
    v ← stk m k
    vec ← as_vector m.heap v
    idx ← stk m 2
    n ← as_number idx
    i ← platform.to_int n
    x ← stk m 1
    vec' ← vector_set vec i x
    ok (record m {
      stack = object su_vector (length m.heap.vectors) ∷ drop 2 m.stack;
      heap = with_vector m.heap vec';
    })

  abbrev pub count_of : ℤ → ℕ
  count_of (ℤ.pos n) = n
  count_of (ℤ.negsuc n) = 0

  unfoldable pub su_vector_pop : Machine N → (k num : ℕ) → Run (Machine N)
  unfolding pop_times push
  su_vector_pop m k num = do
    count ← stk m num
    n ← as_number count
    i ← platform.to_int n
    v ← stk m k
    if count_of i == 0
        then push m v
        else (as_vector m.heap v >>= λ vec.
            pop_times (count_of i) vec >>= λ vec'. push_vector m vec')

  -- What `su_map_get` and `su_map_has` find for the key on top in the map at `k`.
  unfoldable pub search_map : Machine N → (k : ℕ) → Run (Option (Value N))
  search_map m k = do
    key ← stk m 1
    hash ← hash_value platform m.heap key
    v ← stk m k
    x ← as_map m.heap v
    map_get (value_equality platform) x key hash

  unfoldable pub su_map_get : Machine N → (k : ℕ) → Run (Machine N × Bool)
  su_map_get m k = search_map m k >>= λ r. elim r [
    | none ↦ ok (m, false)
    | some v ↦ push m v >>= λ m'. ok (m', true)
  ]

  unfoldable pub su_map_has : Machine N → (k : ℕ) → Run Bool
  unfolding search_map
  su_map_has m k = search_map m k >>= λ r. ok (elim r [ none ↦ false | some v ↦ true ])

  unfoldable pub su_map_insert : Machine N → (k : ℕ) → Run (Machine N)
  su_map_insert m k = do
    key ← stk m 2
    hash ← hash_value platform m.heap key
    v ← stk m k
    x ← as_map m.heap v
    val ← stk m 1
    x' ← map_insert (value_equality platform) x key hash val
    same_map ← insert_keeps (value_equality platform) x key hash val
    if same_map then push m v else push_map m x'

  unfoldable pub su_map_remove : Machine N → (k : ℕ) → Run (Machine N)
  unfolding hash_value map_remove push
  su_map_remove m k = do
    key ← stk m 1
    hash ← hash_value platform m.heap key
    v ← stk m k
    x ← as_map m.heap v
    x' ← map_remove (value_equality platform) x key hash
    same_map ← remove_keeps (value_equality platform) x key hash
    if same_map then push m v else push_map m x'

  -- The loop of `su_map` over the pairs, the lowest first.
  unfoldable pub insert_pairs :
      Heap N → HashTable (Value N) (Value N) → List (Value N) → Run (HashTable (Value N) (Value N))
  unfolding hash_value map_insert
  insert_pairs heap x (key ∷ val ∷ rest) = hash_value platform heap key >>= λ hash.
      map_insert (value_equality platform) x key hash val >>= λ x'. insert_pairs heap x' rest
  insert_pairs heap x _ = ok x

  unfoldable pub su_make_map : Machine N → (num : ℕ) → Run (Machine N)
  unfolding insert_pairs push
  su_make_map m num =
      if num % 2 == 0
      then (do
        assert (leb num (length m.stack))
        x ← insert_pairs m.heap map_create_empty (reverse (take num m.stack))
        push_map m x)
      else raise odd_pairs
