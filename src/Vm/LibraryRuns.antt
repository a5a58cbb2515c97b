-- ===== src/Vm/LibraryRuns.antt =====
-- The native functions on maps of src/vm/libseq.c keep the stack and the frames within their arrays, and so does a
-- machine that has the functions of src/vm/libseq.c.
use saurus.Base.{
  ℕ, zero, suc, ◌%◌, Bool, true, false, not, Option, none, some, List, [], ◌∷◌, length, take,
  reverse, leb, ◌==◌, Run, ok, raise, fetch, ◌>>=◌, pos, All, Ensures, ok-Ensures, raise-Ensures,
  bind-Ensures, if-Ensures, assert-Ensures, duplicated_key, no_such_key, odd_pairs,
}
use saurus.HashMap.Table.{map_create_empty, map_insert, map_remove, insert_keeps, remove_keeps}
use saurus.Vm.{Value, boolean, number}
use saurus.Vm.Api.{
  as_map, push, search_map, su_map_length, su_map_get, su_map_has, su_map_insert, su_map_remove,
  insert_pairs, su_make_map,
}
use saurus.Vm.Arguments.{stk, su_check_arguments}
use saurus.Vm.Bounds.{Turns-InBounds}
use saurus.Vm.CallBounds.{InBounds, NativeLaws}
use saurus.Vm.Hash.{value_equality, hash_value}
use saurus.Vm.Library.{libseq_functions, call_libseq, with_libseq}
use saurus.Vm.LibraryBounds.{
  Returned, Keeps, push-InBounds, with_heap, value-Returned, seq-Keeps, list-Keeps, cons-Keeps,
  first-Keeps, rest-Keeps, vector-Keeps, vector_length-Keeps, vector_push-Keeps, vector_index-Keeps,
  vector_set-Keeps, vector_pop-Keeps,
}
use saurus.Vm.Natives.{
  require, native_map, native_map_length, native_map_get, native_map_set, native_map_insert,
  native_map_remove, native_map_has,
}
use saurus.Vm.State.{Machine, Platform, su_map, su_nil}
use saurus.Vm.Step.{Turns}

module _ {N : Type 0} (platform : Platform N) where
  map-Keeps : Keeps (native_map platform)
  unfolding native_map su_make_map
  map-Keeps m narg b = value-Returned _ (
      if-Ensures InBounds (narg % 2 == 0) _ _
        (λ _. assert-Ensures InBounds (leb narg (length m.stack)) _ λ given.
          bind-Ensures InBounds
            (insert_pairs platform m.heap map_create_empty (reverse (take narg m.stack))) _
            λ x made. push-InBounds _ _ (with_heap m _ b))
        (raise-Ensures InBounds odd_pairs))

  map_length-Keeps : Keeps (native_map_length platform)
  unfolding native_map_length
  map_length-Keeps m narg b =
      bind-Ensures Returned (su_check_arguments m (pos 1) (su_map ∷ [])) _ λ u checked.
        bind-Ensures Returned (su_map_length m 1) _
          λ n got. value-Returned _ (push-InBounds m (number (platform.of_int n)) b)

  found-Returned :
      (m : Machine N) (r : Option (Value N))
      → InBounds m
      → Ensures Returned (elim r as (λ x. Run (Machine N × Bool)) [
        | none ↦ ok (m, false)
        | some v ↦ push m v >>= λ m'. ok (m', true)
      ])
  found-Returned m none b = ok-Ensures Returned _ b
  found-Returned m (some v) b = value-Returned _ (push-InBounds m v b)

  map_get-Keeps : Keeps (native_map_get platform)
  unfolding native_map_get su_map_get
  map_get-Keeps m narg b =
      bind-Ensures Returned (su_check_arguments m (pos 2) (su_map ∷ su_nil ∷ [])) _ λ u checked.
        bind-Ensures Returned (search_map platform m 2) _ λ r found. found-Returned m r b

  insert-InBounds :
      (m : Machine N) (k : ℕ) → InBounds m → Ensures InBounds (su_map_insert platform m k)
  unfolding su_map_insert
  insert-InBounds m k b = bind-Ensures InBounds (stk m 2) _ λ key below.
      bind-Ensures InBounds (hash_value platform m.heap key) _ λ hash hashed.
        bind-Ensures InBounds (stk m k) _ λ v there.
          bind-Ensures InBounds (as_map m.heap v) _ λ x found.
            bind-Ensures InBounds (stk m 1) _ λ val top.
              bind-Ensures InBounds (map_insert (value_equality platform) x key hash val) _
                λ x' made.
                  bind-Ensures InBounds (insert_keeps (value_equality platform) x key hash val) _
                    λ same_map told.
                      if-Ensures InBounds same_map _ _ (λ _. push-InBounds m v b)
                        (push-InBounds _ _ (with_heap m _ b))

  remove-InBounds :
      (m : Machine N) (k : ℕ) → InBounds m → Ensures InBounds (su_map_remove platform m k)
  unfolding su_map_remove
  remove-InBounds m k b = bind-Ensures InBounds (stk m 1) _ λ key top.
      bind-Ensures InBounds (hash_value platform m.heap key) _ λ hash hashed.
        bind-Ensures InBounds (stk m k) _ λ v there.
          bind-Ensures InBounds (as_map m.heap v) _ λ x found.
            bind-Ensures InBounds (map_remove (value_equality platform) x key hash) _ λ x' made.
              bind-Ensures InBounds (remove_keeps (value_equality platform) x key hash) _
                λ same_map told.
                  if-Ensures InBounds same_map _ _ (λ _. push-InBounds m v b)
                    (push-InBounds _ _ (with_heap m _ b))

  map_set-Keeps : Keeps (native_map_set platform)
  unfolding native_map_set
  map_set-Keeps m narg b =
      bind-Ensures Returned (su_check_arguments m (pos 3) (su_map ∷ su_nil ∷ su_nil ∷ [])) _
        λ u checked. value-Returned _ (insert-InBounds m 3 b)

  map_insert-Keeps : Keeps (native_map_insert platform)
  unfolding native_map_insert
  map_insert-Keeps m narg b =
      bind-Ensures Returned (su_check_arguments m (pos 3) (su_map ∷ su_nil ∷ su_nil ∷ [])) _
        λ u checked. bind-Ensures Returned (su_map_has platform m 3) _ λ has found.
          bind-Ensures Returned (require (not has) (raise duplicated_key)) _
            λ u' new. value-Returned _ (insert-InBounds m 3 b)

  map_remove-Keeps : Keeps (native_map_remove platform)
  unfolding native_map_remove
  map_remove-Keeps m narg b =
      bind-Ensures Returned (su_check_arguments m (pos 2) (su_map ∷ su_nil ∷ [])) _ λ u checked.
        bind-Ensures Returned (su_map_has platform m 3) _ λ has found.
          bind-Ensures Returned (require has (raise no_such_key)) _
            λ u' there. value-Returned _ (remove-InBounds m 1 b)

  map_has-Keeps : Keeps (native_map_has platform)
  unfolding native_map_has
  map_has-Keeps m narg b =
      bind-Ensures Returned (su_check_arguments m (pos 2) (su_map ∷ su_nil ∷ [])) _ λ u checked.
        bind-Ensures Returned (su_map_has platform m 1) _
          λ has found. value-Returned _ (push-InBounds m (boolean has) b)

  all-Keep :
      (fs : List (Machine N → ℕ → Run (Machine N × Bool)))
      → All Keeps fs
      → (i : ℕ) (m : Machine N) (narg : ℕ) → InBounds m
      → Ensures Returned (fetch fs i >>= λ f. f m narg)
  all-Keep [] k i m narg b = record { holds = λ r e. absurd (cc) }
  all-Keep (f ∷ fs) (k, ks) zero m narg b = k m narg b
  all-Keep (f ∷ fs) (k, ks) (suc i) m narg b = all-Keep fs ks i m narg b

  call_libseq-Keeps : (f : ℕ) → Keeps (call_libseq platform f)
  unfolding call_libseq
  call_libseq-Keeps f m narg b =
      all-Keep (libseq_functions platform)
        (
          seq-Keeps,
          (
            list-Keeps,
            (
              cons-Keeps,
              (
                first-Keeps,
                (
                  rest-Keeps,
                  (
                    vector-Keeps,
                    (
                      vector_length-Keeps,
                      (
                        vector_index-Keeps platform,
                        (
                          vector_set-Keeps platform,
                          (
                            vector_push-Keeps,
                            (
                              vector_pop-Keeps platform,
                              (
                                map-Keeps,
                                (
                                  map_length-Keeps,
                                  (
                                    map_get-Keeps,
                                    (
                                      map_set-Keeps,
                                      (map_insert-Keeps, (map_remove-Keeps, (map_has-Keeps, tt))),
                                    ),
                                  ),
                                ),
                              ),
                            ),
                          ),
                        ),
                      ),
                    ),
                  ),
                ),
              ),
            ),
          ),
        )
        f m narg b

  libseq_laws : NativeLaws (with_libseq platform)
  libseq_laws = record {
    keeps = λ p m narg m' returned b e. (call_libseq-Keeps p m narg b).holds (m', returned) e;
  }

  -- In every state that `vm_loop` reaches where the native functions are those of src/vm/libseq.c, the stack has at
  -- most 512 values and there are at most 128 frames, if that was so at first. The instructions are arbitrary.
  pub Turns-libseq :
      {m m' : Machine N} → InBounds m → Turns (with_libseq platform) m m' → InBounds m'
  Turns-libseq b run = Turns-InBounds (with_libseq platform) libseq_laws b run
