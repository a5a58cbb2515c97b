-- ===== src/Vm/Library.antt =====
-- libseq of src/vm/libseq.c: its native functions by their places in it, and their names.
use saurus.Base.{ℕ, ◌+◌, Bool, true, List, [], ◌∷◌, Run, ok, fetch, ◌>>=◌}
use saurus.Vm.Host.{su_pushfunction, su_setglobal}
use saurus.Vm.Natives.{
  vector, native_vector_length, native_vector_index, native_vector_set, native_vector_push,
  native_vector_pop, native_map, native_map_length, native_map_get, native_map_set,
  native_map_insert, native_map_remove, native_map_has,
}
use saurus.Vm.Sequences.{native_seq, native_list, native_cons, native_first, native_rest}
use saurus.Vm.State.{Machine, Platform}

-- The names as bytes, without the zero: seq, list, cons, first, rest, vector, vector-length, vector-index, vector-set,
-- vector-push, vector-pop, map, map-length, map-get, map-set, map-insert, map-remove, map-has.
abbrev pub libseq_names : List (List ℕ)
libseq_names =
    (115 ∷ 101 ∷ 113 ∷ [])
    ∷ (108 ∷ 105 ∷ 115 ∷ 116 ∷ [])
    ∷ (99 ∷ 111 ∷ 110 ∷ 115 ∷ [])
    ∷ (102 ∷ 105 ∷ 114 ∷ 115 ∷ 116 ∷ [])
    ∷ (114 ∷ 101 ∷ 115 ∷ 116 ∷ [])
    ∷ (118 ∷ 101 ∷ 99 ∷ 116 ∷ 111 ∷ 114 ∷ [])
    ∷ (118 ∷ 101 ∷ 99 ∷ 116 ∷ 111 ∷ 114 ∷ 45 ∷ 108 ∷ 101 ∷ 110 ∷ 103 ∷ 116 ∷ 104 ∷ [])
    ∷ (118 ∷ 101 ∷ 99 ∷ 116 ∷ 111 ∷ 114 ∷ 45 ∷ 105 ∷ 110 ∷ 100 ∷ 101 ∷ 120 ∷ [])
    ∷ (118 ∷ 101 ∷ 99 ∷ 116 ∷ 111 ∷ 114 ∷ 45 ∷ 115 ∷ 101 ∷ 116 ∷ [])
    ∷ (118 ∷ 101 ∷ 99 ∷ 116 ∷ 111 ∷ 114 ∷ 45 ∷ 112 ∷ 117 ∷ 115 ∷ 104 ∷ [])
    ∷ (118 ∷ 101 ∷ 99 ∷ 116 ∷ 111 ∷ 114 ∷ 45 ∷ 112 ∷ 111 ∷ 112 ∷ [])
    ∷ (109 ∷ 97 ∷ 112 ∷ [])
    ∷ (109 ∷ 97 ∷ 112 ∷ 45 ∷ 108 ∷ 101 ∷ 110 ∷ 103 ∷ 116 ∷ 104 ∷ [])
    ∷ (109 ∷ 97 ∷ 112 ∷ 45 ∷ 103 ∷ 101 ∷ 116 ∷ [])
    ∷ (109 ∷ 97 ∷ 112 ∷ 45 ∷ 115 ∷ 101 ∷ 116 ∷ [])
    ∷ (109 ∷ 97 ∷ 112 ∷ 45 ∷ 105 ∷ 110 ∷ 115 ∷ 101 ∷ 114 ∷ 116 ∷ [])
    ∷ (109 ∷ 97 ∷ 112 ∷ 45 ∷ 114 ∷ 101 ∷ 109 ∷ 111 ∷ 118 ∷ 101 ∷ [])
    ∷ (109 ∷ 97 ∷ 112 ∷ 45 ∷ 104 ∷ 97 ∷ 115 ∷ [])
    ∷ []

module _ {N : Type 0} (platform : Platform N) where
  abbrev pub libseq_functions : List (Machine N → ℕ → Run (Machine N × Bool))
  libseq_functions =
      native_seq
      ∷ native_list
      ∷ native_cons
      ∷ native_first
      ∷ native_rest
      ∷ vector
      ∷ native_vector_length
      ∷ native_vector_index platform
      ∷ native_vector_set platform
      ∷ native_vector_push
      ∷ native_vector_pop platform
      ∷ native_map platform
      ∷ native_map_length platform
      ∷ native_map_get platform
      ∷ native_map_set platform
      ∷ native_map_insert platform
      ∷ native_map_remove platform
      ∷ native_map_has platform
      ∷ []

  unfoldable pub call_libseq : (f : ℕ) → Machine N → (narg : ℕ) → Run (Machine N × Bool)
  call_libseq f m narg = fetch libseq_functions f >>= λ function. function m narg

  -- The surroundings of the machine where these are the native functions.
  abbrev pub with_libseq : Platform N
  with_libseq = record platform { native = call_libseq }

  -- One function after the other, from the number `f` on.
  unfoldable pub register : (f : ℕ) → List (List ℕ) → Machine N → Run (Machine N)
  unfolding su_pushfunction su_setglobal
  register f [] m = ok m
  register f (name ∷ names) m = do
    m' ← su_pushfunction m f
    m'' ← su_setglobal platform m' true name
    register (f + 1) names m''

  unfoldable pub libseq : Machine N → Run (Machine N)
  unfolding register
  libseq m = register 0 libseq_names m
