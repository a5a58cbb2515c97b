-- ===== src/Vm/Globals.antt =====
-- OP_SETGLOBAL and OP_GETGLOBAL of src/vm/core.c agree.
use saurus.Base.{
  ℕ, ◌+◌, ◌<◌, ◌≡◌, ◌≢◌, refl, ap, sym, ◌∙◌, true, false, none, inl, inr, [], ◌∷◌, ◌++◌, length,
  ==-ne, Run, ok, fetch, fetch_end, ◌>>=◌, int_bound, arith,
}
use saurus.HashMap.Table.{HashTable, map_get, map_insert, map_length}
use saurus.HashMap.Written.{EqualityLaws}
use saurus.HashMap.Shape.{HashLaws, IsTable}
use saurus.HashMap.TableInsert.{map_insert-Inserted}
use saurus.Vm.{Value, object}
use saurus.Vm.Closures.{
  insert_global, global_name, update_global_ref, find_global, get_global, set_global,
}
use saurus.Vm.Hash.{murmur, value_eq, value_equality, hash_value}
use saurus.Vm.State.{Heap, Platform, StringObject, su_string, su_map, su_local}
use saurus.Vm.Strings.{string_from_db}
use saurus.Vm.Interning.{with_maps, string_from_db-with_maps, string_from_db-keeps}

module _ {N : Type 0} (platform : Platform N) (laws : EqualityLaws (value_equality platform))
    (value_hash : Value N → ℕ) (hashes : HashLaws (value_equality platform) value_hash) where
  eq_strings :
      (p q : ℕ) → p ≢ q → value_eq platform (object su_string p) (object su_string q) ≡ false
  unfolding value_eq
  eq_strings p q ne = rw (==-ne p q ne) refl

  string_hash :
      (heap : Heap N) (p : ℕ) (s : StringObject)
      → fetch heap.string_objects p ≡ ok s
      → hash_value platform heap (object su_string p) ≡ ok s.hash
  unfolding hash_value
  string_hash heap p s there = rw there refl

  -- A search among the globals for a string.
  find_global_lem :
      (heap : Heap N) (p : ℕ) (s : StringObject) (x : HashTable (Value N) (Value N))
      → fetch heap.maps heap.globals ≡ ok x
      → fetch heap.string_objects p ≡ ok s
      → s.hash ≡ value_hash (object su_string p)
      → find_global platform heap (object su_string p)
        ≡ map_get (value_equality platform) x (object su_string p) (value_hash (object su_string p))
  unfolding find_global
  find_global_lem heap p s x globals there hashed =
      rw (globals, string_hash heap p s there, hashed) refl

  insert_global_lem :
      (heap : Heap N) (k val : Value N) (h : ℕ) (x x' : HashTable (Value N) (Value N))
      → fetch heap.maps heap.globals ≡ ok x
      → map_insert (value_equality platform) x k h val ≡ ok x'
      → insert_global platform heap k h val
        ≡ ok (with_maps heap (heap.maps ++ x' ∷ []) (length heap.maps))
  unfolding insert_global
  insert_global_lem heap k val h x x' globals made = rw (globals, made) refl

  set_global_lem :
      (heap heap' : Heap N) (p h : ℕ) (val : Value N)
      → find_global platform heap (object su_string p) ≡ ok none
      → hash_value platform heap (object su_string p) ≡ ok h
      → insert_global platform heap (object su_string p) h val ≡ ok heap'
      → set_global platform heap (object su_string p) val ≡ update_global_ref platform heap'
  unfolding set_global
  set_global_lem heap heap' p h val absent hashed inserted = rw (absent, hashed, inserted) refl

  -- The heap with a reference to the globals.
  abbrev with_ref : Heap N → Heap N
  with_ref heap = record heap { locals = heap.locals ++ object su_map heap.globals ∷ [] }

  update_global_ref_lem :
      (heap heap₁ heap₂ : Heap N) (g h : ℕ)
      → string_from_db heap (murmur (global_name platform) 0) (global_name platform) ≡ ok (g, heap₁)
      → hash_value platform (with_ref heap₁) (object su_string g) ≡ ok h
      → insert_global platform
          (with_ref heap₁)
          (object su_string g)
          h
          (object su_local (length heap₁.locals))
        ≡ ok heap₂
      → update_global_ref platform heap ≡ ok heap₂
  unfolding update_global_ref
  update_global_ref_lem heap heap₁ heap₂ g h interned hashed inserted =
      ap
        (λ (r : Run (ℕ × Heap N)). r >>= λ q.
          hash_value platform (with_ref q.1) (object su_string q.0) >>= λ k.
          insert_global platform (with_ref q.1) (object su_string q.0) k
            (object su_local (length q.1.locals)))
        interned
      ∙ ap
          (λ r. r >>= λ k.
            insert_global platform (with_ref heap₁) (object su_string g) k
              (object su_local (length heap₁.locals)))
          hashed
      ∙ inserted

  module _ (heap heap₁ : Heap N) (p g : ℕ) (s name : StringObject)
      (x : HashTable (Value N) (Value N)) (val : Value N)
      (globals : fetch heap.maps heap.globals ≡ ok x) (table : IsTable (value_equality platform) x)
      (fits : map_length x + 2 < int_bound) (there : fetch heap.string_objects p ≡ ok s)
      (interned : string_from_db heap (murmur (global_name platform) 0) (global_name platform)
        ≡ ok (g, heap₁))
      (named : fetch heap₁.string_objects g ≡ ok name)
      (hashed : (q : ℕ) (r : StringObject)
        → fetch heap₁.string_objects q ≡ ok r
        → r.hash ≡ value_hash (object su_string q))
      (other : p ≢ g)
      (new : map_get
          (value_equality platform)
          x
          (object su_string p)
          (value_hash (object su_string p))
        ≡ ok none) where
    -- The heap after both insertions.
    after : (x₁ x₂ : HashTable (Value N) (Value N)) → Heap N
    after x₁ x₂ =
        with_maps (with_ref (with_maps heap₁ (heap.maps ++ x₁ ∷ []) (length heap.maps)))
          ((heap.maps ++ x₁ ∷ []) ++ x₂ ∷ []) (length (heap.maps ++ x₁ ∷ []))

    kept :
        (q : ℕ) (r : StringObject)
        → fetch heap.string_objects q ≡ ok r
        → fetch heap₁.string_objects q ≡ ok r
    kept q r at_q =
        (string_from_db-keeps heap (murmur (global_name platform) 0) (global_name platform) q r
            at_q).holds
          (g, heap₁) interned

    set_global-after :
        (x₁ x₂ : HashTable (Value N) (Value N))
        → map_insert
            (value_equality platform)
            x
            (object su_string p)
            (value_hash (object su_string p))
            val
          ≡ ok x₁
        → map_insert
            (value_equality platform)
            x₁
            (object su_string g)
            (value_hash (object su_string g))
            (object su_local (length heap₁.locals))
          ≡ ok x₂
        → set_global platform heap (object su_string p) val ≡ ok (after x₁ x₂)
    unfolding after
    set_global-after x₁ x₂ made₁ made₂ =
        let own : s.hash ≡ value_hash (object su_string p) = hashed p s (kept p s there) in
        let middle : Heap N = with_maps heap (heap.maps ++ x₁ ∷ []) (length heap.maps) in
        let middle₁ : Heap N = with_maps heap₁ (heap.maps ++ x₁ ∷ []) (length heap.maps) in
        set_global_lem heap middle p (value_hash (object su_string p)) val
          (find_global_lem heap p s x globals there own ∙ new)
          (string_hash heap p s there ∙ ap ok own)
          (insert_global_lem heap (object su_string p) val (value_hash (object su_string p)) x x₁
            globals made₁)
        ∙ update_global_ref_lem middle middle₁ (after x₁ x₂) g (value_hash (object su_string g))
            (string_from_db-with_maps heap heap₁ (murmur (global_name platform) 0) g
              (global_name platform) _ _ interned)
            (string_hash (with_ref middle₁) g name named ∙ ap ok (hashed g name named))
            (insert_global_lem (with_ref middle₁) (object su_string g)
              (object su_local (length heap₁.locals)) (value_hash (object su_string g)) x₁ x₂
              (fetch_end heap.maps x₁) made₂)

    -- A global, by the name `q`, after it.
    find_global-after :
        (x₁ x₂ : HashTable (Value N) (Value N)) (q : ℕ) (r : StringObject)
        → fetch heap.string_objects q ≡ ok r
        → find_global platform (after x₁ x₂) (object su_string q)
          ≡ map_get
              (value_equality platform)
              x₂
              (object su_string q)
              (value_hash (object su_string q))
    unfolding after
    find_global-after x₁ x₂ q r at_q =
        find_global_lem (after x₁ x₂) q r x₂ (fetch_end (heap.maps ++ x₁ ∷ []) x₂) (kept q r at_q)
          (hashed q r (kept q r at_q))

    -- Setting a new global that is not "_G" ends, if the map of globals is well formed and has room for two more:
    -- the global then has a value equal to the one set, and every other global but "_G" is what it was.
    pub set_global-get_global :
        (heap' : Heap N) × (set_global platform heap (object su_string p) val ≡ ok heap')
        × ((v : Value N) × (get_global platform heap' (object su_string p) ≡ ok v)
            × (value_eq platform val v ≡ true))
        × ((q : ℕ) (r : StringObject)
            → fetch heap.string_objects q ≡ ok r
            → q ≢ p
            → q ≢ g
            → find_global platform heap' (object su_string q)
              ≡ find_global platform heap (object su_string q))
    unfolding get_global value_eq
    set_global-get_global =
        let (x₁, made₁, i₁) =
          map_insert-Inserted (value_equality platform) laws value_hash hashes x
            (object su_string p) val table (omega (arith, fits)) in
        let room : map_length x₁ + 1 < int_bound = elim i₁.counts [
          | inl (absent, longer) ↦ omega (arith, fits, longer)
          | inr (v, found, same) ↦ omega (arith, fits, same)
        ] in
        let (x₂, made₂, i₂) =
          map_insert-Inserted (value_equality platform) laws value_hash hashes x₁
            (object su_string g) (object su_local (length heap₁.locals)) i₁.table room in
        let (v, got, equal) = i₁.hit (object su_string p) (laws.key_refl (object su_string p)) in
        (
          after x₁ x₂,
          set_global-after x₁ x₂ made₁ made₂,
          (
            v,
            rw
                (
                  find_global-after x₁ x₂ p s there,
                  i₂.miss (object su_string p) (eq_strings p g other),
                  got,
                )
                refl,
            equal,
          ),
          λ q r at_q not_p not_g.
              find_global-after x₁ x₂ q r at_q
              ∙ i₂.miss (object su_string q) (eq_strings q g not_g)
              ∙ i₁.miss (object su_string q) (eq_strings q p not_p)
              ∙ sym (find_global_lem heap q r x globals at_q (hashed q r (kept q r at_q))),
        )
