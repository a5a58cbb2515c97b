-- ===== src/Vm/Natives.antt =====
-- The native functions on vectors and maps of src/vm/libseq.c, and those on references of src/vm/lib.c. A
-- function that returns a value has it on top of the stack and gives true.
use saurus.Base.{
  ℕ, ◌-◌, Bool, true, false, not, [], ◌∷◌, Run, ok, raise, ◌>>=◌, ◌>>◌, pos, negsuc, duplicated_key,
  no_such_key,
}
use saurus.Vm.{boolean, number}
use saurus.Vm.Api.{
  push, su_copy, su_ref_local, su_unref_local, su_set_local, su_vector_length, su_map_length,
  su_make_vector, su_vector_push, su_vector_index, su_vector_set, su_vector_pop, su_map_get,
  su_map_has, su_map_insert, su_map_remove, su_make_map,
}
use saurus.Vm.Arguments.{su_check_arguments}
use saurus.Vm.State.{Machine, Platform, su_nil, su_number, su_vector, su_map, su_local}

-- `su_assert`
abbrev pub require : Bool → Run (Unit {0}) → Run (Unit {0})
require true otherwise = ok tt
require false otherwise = otherwise

module _ {N : Type 0} where
  -- Returns a value, or none.
  abbrev pub with_value : Run (Machine N) → Run (Machine N × Bool)
  with_value r = r >>= λ m. ok (m, true)

  unfoldable pub vector : Machine N → (narg : ℕ) → Run (Machine N × Bool)
  unfolding su_make_vector
  vector m narg = with_value (su_make_vector m narg)

  -- It does not push the length.
  unfoldable pub native_vector_length : Machine N → (narg : ℕ) → Run (Machine N × Bool)
  unfolding su_check_arguments su_vector_length
  native_vector_length m narg = do
    su_check_arguments m (pos 1) (su_vector ∷ [])
    n ← su_vector_length m 1
    ok (m, true)

  unfoldable pub native_vector_push : Machine N → (narg : ℕ) → Run (Machine N × Bool)
  unfolding su_check_arguments su_vector_push
  native_vector_push m narg = do
    su_check_arguments m (negsuc 0) (su_vector ∷ [])
    with_value (su_vector_push m narg (narg - 1))

  unfoldable pub unref : Machine N → (narg : ℕ) → Run (Machine N × Bool)
  unfolding su_check_arguments su_unref_local
  unref m narg = do su_check_arguments m (pos 1) (su_local ∷ []); with_value (su_unref_local m 1)

  unfoldable pub ref : Machine N → (narg : ℕ) → Run (Machine N × Bool)
  unfolding su_check_arguments su_ref_local
  ref m narg = do
    su_check_arguments m (pos 2) (su_local ∷ su_nil ∷ [])
    with_value (su_ref_local m 1)

  unfoldable pub set_ref : Machine N → (narg : ℕ) → Run (Machine N × Bool)
  unfolding su_check_arguments su_copy su_set_local
  set_ref m narg = do
    su_check_arguments m (pos 2) (su_local ∷ su_nil ∷ [])
    m' ← su_copy m 1
    with_value (su_set_local m' 3)

module _ {N : Type 0} (platform : Platform N) where
  unfoldable pub native_vector_index : Machine N → (narg : ℕ) → Run (Machine N × Bool)
  unfolding su_check_arguments su_copy su_vector_index
  native_vector_index m narg = do
    su_check_arguments m (pos 2) (su_vector ∷ su_number ∷ [])
    m' ← su_copy m 1
    with_value (su_vector_index platform m' 3)

  unfoldable pub native_vector_set : Machine N → (narg : ℕ) → Run (Machine N × Bool)
  unfolding su_check_arguments su_copy su_vector_set
  native_vector_set m narg = do
    su_check_arguments m (pos 3) (su_vector ∷ su_number ∷ su_nil ∷ [])
    m' ← su_copy m 2
    m'' ← su_copy m' 2
    with_value (su_vector_set platform m'' 5)

  unfoldable pub native_vector_pop : Machine N → (narg : ℕ) → Run (Machine N × Bool)
  unfolding su_check_arguments su_vector_pop
  native_vector_pop m narg = do
    su_check_arguments m (pos 2) (su_vector ∷ su_number ∷ [])
    with_value (su_vector_pop platform m 2 1)

  unfoldable pub native_map : Machine N → (narg : ℕ) → Run (Machine N × Bool)
  unfolding su_make_map
  native_map m narg = with_value (su_make_map platform m narg)

  unfoldable pub native_map_length : Machine N → (narg : ℕ) → Run (Machine N × Bool)
  unfolding su_check_arguments su_map_length push
  native_map_length m narg = do
    su_check_arguments m (pos 1) (su_map ∷ [])
    n ← su_map_length m 1
    with_value (push m (number (platform.of_int n)))

  unfoldable pub native_map_get : Machine N → (narg : ℕ) → Run (Machine N × Bool)
  unfolding su_map_get
  native_map_get m narg = do
    su_check_arguments m (pos 2) (su_map ∷ su_nil ∷ [])
    su_map_get platform m 2

  unfoldable pub native_map_set : Machine N → (narg : ℕ) → Run (Machine N × Bool)
  unfolding su_map_insert
  native_map_set m narg = do
    su_check_arguments m (pos 3) (su_map ∷ su_nil ∷ su_nil ∷ [])
    with_value (su_map_insert platform m 3)

  unfoldable pub native_map_insert : Machine N → (narg : ℕ) → Run (Machine N × Bool)
  unfolding su_map_has su_map_insert
  native_map_insert m narg = do
    su_check_arguments m (pos 3) (su_map ∷ su_nil ∷ su_nil ∷ [])
    has ← su_map_has platform m 3
    require (not has) (raise duplicated_key)
    with_value (su_map_insert platform m 3)

  unfoldable pub native_map_remove : Machine N → (narg : ℕ) → Run (Machine N × Bool)
  unfolding su_map_has su_map_remove
  native_map_remove m narg = do
    su_check_arguments m (pos 2) (su_map ∷ su_nil ∷ [])
    has ← su_map_has platform m 3
    require has (raise no_such_key)
    with_value (su_map_remove platform m 1)

  unfoldable pub native_map_has : Machine N → (narg : ℕ) → Run (Machine N × Bool)
  unfolding su_map_has push
  native_map_has m narg = do
    su_check_arguments m (pos 2) (su_map ∷ su_nil ∷ [])
    has ← su_map_has platform m 1
    with_value (push m (boolean has))
