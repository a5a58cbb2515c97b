-- ===== src/Vm/NativeMaps.antt =====
-- The native functions on maps of src/vm/libseq.c: what they do to the maps.
use saurus.Base.{
  fetch-lt, ok-injective, ℕ, ◌+◌, ◌<◌, ◌≡◌, refl, ap, sym, ◌∙◌, Bool, true, false, ◌⊎◌, inl, inr,
  some, List, [], ◌∷◌, ◌++◌, length, Run, ok, fetch, fetch-append_left, fetch_end, int_bound,
}
use saurus.HashMap.Shape.{HashLaws, IsTable}
use saurus.HashMap.Table.{
  HashTable, map_get, map_insert, map_length, insert_keeps, insert_keeps-map_insert,
}
use saurus.HashMap.TableInsert.{Inserted, map_insert-Inserted}
use saurus.HashMap.Written.{EqualityLaws}
use saurus.Vm.{Value, object, stack_size}
use saurus.Vm.Api.{push-ok, search_map, su_map_get, su_map_insert}
use saurus.Vm.Arguments.{stk, checked}
use saurus.Vm.Hash.{value_eq, value_equality, hash_value}
use saurus.Vm.Natives.{native_map_get, native_map_set}
use saurus.Vm.State.{Heap, Machine, Platform, su_map, su_nil}

result_machine :
    {N : Type 0} {m m' : Machine N} {r r' : Bool}
    → ◌≡◌ {A = Run (Machine N × Bool)} (ok (m, r)) (ok (m', r'))
    → m ≡ m'
result_machine e = cc

module _ {N : Type 0} (platform : Platform N) where
  search_map_lem :
      (m : Machine N) (k : ℕ) (key : Value N) (h q : ℕ) (x : HashTable (Value N) (Value N))
      → stk m 1 ≡ ok key
      → hash_value platform m.heap key ≡ ok h
      → stk m k ≡ ok (object su_map q)
      → fetch m.heap.maps q ≡ ok x
      → search_map platform m k ≡ map_get (value_equality platform) x key h
  unfolding search_map
  search_map_lem m k key h q x top hashed at' there = rw (top, hashed, at', there) refl

  native_map_set_lem :
      (m : Machine N) (p h : ℕ) (val key : Value N) (x x' : HashTable (Value N) (Value N))
      → m.narg ≡ 3
      → stk m 1 ≡ ok val
      → stk m 2 ≡ ok key
      → stk m 3 ≡ ok (object su_map p)
      → length m.stack < stack_size
      → hash_value platform m.heap key ≡ ok h
      → fetch m.heap.maps p ≡ ok x
      → map_insert (value_equality platform) x key h val ≡ ok x'
      → insert_keeps (value_equality platform) x key h val ≡ ok false
      → native_map_set platform m 3
        ≡ ok (
          record m {
            stack = object su_map (length m.heap.maps) ∷ m.stack;
            heap = record m.heap { maps = m.heap.maps ++ x' ∷ [] };
          },
          true,
        )
  unfolding native_map_set su_map_insert
  native_map_set_lem m p h val key x x' given e1 e2 e3 room hashed there made kept =
      rw (checked m 3 (su_map ∷ su_nil ∷ su_nil ∷ []) given, e2, hashed, e3, there, e1, made, kept)
        (rw
          (push-ok (record m { heap = record m.heap { maps = m.heap.maps ++ x' ∷ [] } })
            (object su_map (length m.heap.maps)) room)
          refl)

  -- `map-set` that changes nothing.
  native_map_set_same :
      (m : Machine N) (p h : ℕ) (val key : Value N) (x x' : HashTable (Value N) (Value N))
      → m.narg ≡ 3
      → stk m 1 ≡ ok val
      → stk m 2 ≡ ok key
      → stk m 3 ≡ ok (object su_map p)
      → length m.stack < stack_size
      → hash_value platform m.heap key ≡ ok h
      → fetch m.heap.maps p ≡ ok x
      → map_insert (value_equality platform) x key h val ≡ ok x'
      → insert_keeps (value_equality platform) x key h val ≡ ok true
      → native_map_set platform m 3 ≡ ok (record m { stack = object su_map p ∷ m.stack }, true)
  unfolding native_map_set su_map_insert
  native_map_set_same m p h val key x x' given e1 e2 e3 room hashed there made kept =
      rw
        (
          checked m 3 (su_map ∷ su_nil ∷ su_nil ∷ []) given,
          e2,
          hashed,
          e3,
          there,
          e1,
          made,
          kept,
          push-ok m (object su_map p) room,
        )
        refl

  native_map_get_lem :
      (m : Machine N) (h q : ℕ) (key v : Value N) (x : HashTable (Value N) (Value N))
      → m.narg ≡ 2
      → stk m 1 ≡ ok key
      → hash_value platform m.heap key ≡ ok h
      → stk m 2 ≡ ok (object su_map q)
      → fetch m.heap.maps q ≡ ok x
      → map_get (value_equality platform) x key h ≡ ok (some v)
      → length m.stack < stack_size
      → native_map_get platform m 2 ≡ ok (record m { stack = v ∷ m.stack }, true)
  unfolding native_map_get su_map_get
  native_map_get_lem m h q key v x given top hashed below there got room =
      rw
        (
          checked m 2 (su_map ∷ su_nil ∷ []) given,
          search_map_lem m 2 key h q x top hashed below there,
          got,
          push-ok m v room,
        )
        refl

  module _ (laws : EqualityLaws (value_equality platform)) (value_hash : Value N → ℕ)
      (hashes : HashLaws (value_equality platform) value_hash) where
    module _ (m : Machine N) (p : ℕ) (val key : Value N) (rest : List (Value N))
        (x : HashTable (Value N) (Value N)) (given : m.narg ≡ 3)
        (s : m.stack ≡ val ∷ key ∷ object su_map p ∷ rest) (room : length m.stack < stack_size)
        (there : fetch m.heap.maps p ≡ ok x) (table : IsTable (value_equality platform) x)
        (fits : map_length x + 1 < int_bound)
        (hashed : hash_value platform m.heap key ≡ ok (value_hash key)) where
      -- The machine after `map-set`, with the new map.
      made_map : HashTable (Value N) (Value N) → Machine N
      made_map x' = record m {
        stack = object su_map (length m.heap.maps) ∷ m.stack;
        heap = record m.heap { maps = m.heap.maps ++ x' ∷ [] };
      }

      same_map : Machine N
      same_map = record m { stack = object su_map p ∷ m.stack }

      map_set-made :
          (x' : HashTable (Value N) (Value N))
          → map_insert (value_equality platform) x key (value_hash key) val ≡ ok x'
          → ((x' ≡ x) × (native_map_set platform m 3 ≡ ok (same_map, true)))
            ⊎ (native_map_set platform m 3 ≡ ok (made_map x', true))
      unfolding made_map same_map
      map_set-made x' made =
          elim (insert_keeps-map_insert (value_equality platform) x x' key (value_hash key) val
            made) [
              | inl (kept, same) ↦ inl (
                same,
                native_map_set_same m p (value_hash key) val key x x' given (ap (λ l. fetch l 0) s)
                    (ap (λ l. fetch l 1) s) (ap (λ l. fetch l 2) s) room hashed there made kept,
              )
              | inr kept ↦ inr (
                  native_map_set_lem m p (value_hash key) val key x x' given (ap (λ l. fetch l 0) s)
                    (ap (λ l. fetch l 1) s) (ap (λ l. fetch l 2) s) room hashed there made kept)
            ]

      -- `map-set` of a well-formed map with room for one more key, on a stack with room for the result, returns a
      -- map on top of the stack, which is as it was below. That map is well formed, finds a value equal to the one
      -- set at every key equal to the one set and what the old map finds at every other key, and its length is that
      -- of the old map, or one more if the old map does not have the key. It is the old map itself, and nothing
      -- else changes, or it is one new map in the heap, and every map that was there is still what it was.
      pub map_set-persistent :
          (x' : HashTable (Value N) (Value N)) × Inserted
            (value_equality platform)
            laws
            value_hash
            hashes
            x
            key
            val
            x'
          × (((x' ≡ x)
                × (native_map_set platform m 3
                    ≡ ok (record m { stack = object su_map p ∷ m.stack }, true)))
              ⊎ ((native_map_set platform m 3
                    ≡ ok (
                      record m {
                        stack = object su_map (length m.heap.maps) ∷ m.stack;
                        heap = record m.heap { maps = m.heap.maps ++ x' ∷ [] };
                      },
                      true,
                    ))
                  × (fetch (m.heap.maps ++ x' ∷ []) (length m.heap.maps) ≡ ok x')
                  × ((p' : ℕ) (old : HashTable (Value N) (Value N))
                      → fetch m.heap.maps p' ≡ ok old
                      → fetch (m.heap.maps ++ x' ∷ []) p' ≡ ok old)))
      unfolding made_map same_map
      map_set-persistent =
          let (x', made, i) =
            map_insert-Inserted (value_equality platform) laws value_hash hashes x key val table
              fits in
          (
            x',
            i,
            elim (map_set-made x' made) [
              | inl (same, run) ↦ inl (same, run)
              | inr run ↦ inr (
                run,
                fetch_end m.heap.maps x',
                λ p' old e.
                    fetch-append_left m.heap.maps (x' ∷ []) p' (fetch-lt m.heap.maps p' old e) ∙ e,
              )
            ],
          )

      -- Where the map that `map-set` returned lies.
      map_set-found :
          (x' : HashTable (Value N) (Value N)) (m₁ : Machine N) (set_map : Value N)
          → map_insert (value_equality platform) x key (value_hash key) val ≡ ok x'
          → native_map_set platform m 3 ≡ ok (m₁, true)
          → fetch m₁.stack 0 ≡ ok set_map
          → (q : ℕ) × (set_map ≡ object su_map q) × (fetch m₁.heap.maps q ≡ ok x')
      unfolding made_map same_map
      map_set-found x' m₁ set_map made called top = elim (map_set-made x' made) [
        | inl (same, run) ↦
            let it : same_map ≡ m₁ = result_machine (sym run ∙ called) in
            (
              p,
              ok-injective (sym top ∙ ap (λ (w : Machine N). fetch w.stack 0) (sym it)),
              ap (λ (w : Machine N). fetch w.heap.maps p) (sym it) ∙ there ∙ ap ok (sym same),
            )
        | inr run ↦
            let it : made_map x' ≡ m₁ = result_machine (sym run ∙ called) in
            (
              length m.heap.maps,
              ok-injective (sym top ∙ ap (λ (w : Machine N). fetch w.stack 0) (sym it)),
              ap (λ (w : Machine N). fetch w.heap.maps (length m.heap.maps)) (sym it)
                  ∙ fetch_end m.heap.maps x',
            )
      ]

      -- `map-get` of a map that `map-set` made, with a key equal to the one set, returns a value equal to the one
      -- set.
      pub map_set-map_get :
          (m₁ m₂ : Machine N) (set_map key' : Value N) (rest' : List (Value N))
          → native_map_set platform m 3 ≡ ok (m₁, true)
          → fetch m₁.stack 0 ≡ ok set_map
          → m₂.heap ≡ m₁.heap
          → m₂.stack ≡ key' ∷ set_map ∷ rest'
          → m₂.narg ≡ 2
          → length m₂.stack < stack_size
          → hash_value platform m₂.heap key' ≡ ok (value_hash key')
          → value_eq platform key' key ≡ true
          → (v : Value N) × (native_map_get platform m₂ 2
              ≡ ok (record m₂ { stack = v ∷ m₂.stack }, true))
            × (value_eq platform val v ≡ true)
      map_set-map_get m₁ m₂ set_map key' rest' called top same s₂ given₂ room₂ hashed₂ e =
          let (x', made, i) =
            map_insert-Inserted (value_equality platform) laws value_hash hashes x key val table
              fits in
          let (q, ptr, found) = map_set-found x' m₁ set_map made called top in
          let (v, got, equal) = i.hit key' e in
          (
            v,
            native_map_get_lem m₂ (value_hash key') q key' v x' given₂ (ap (λ l. fetch l 0) s₂)
                hashed₂ (ap (λ l. fetch l 1) s₂ ∙ ap ok ptr)
                (ap (λ (h : Heap N). fetch h.maps q) same ∙ found) got room₂,
            equal,
          )
