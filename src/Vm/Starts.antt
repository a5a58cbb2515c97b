-- ===== src/Vm/Starts.antt =====
-- su_init of src/vm/core.c makes a good machine.
use saurus.Base.{
  ℕ, ◌<◌, ◌^◌, ap, List, ◌≡◌, refl, sym, ◌∙◌, [], ◌∷◌, ok, fetch, ◌==◌, Bool-cases, ==_iff, inl,
  inr, none, some, Option, true, Ensures, ok-Ensures, bind-Ensures, arith,
}
use saurus.HashMap.{leaf_node}
use saurus.HashMap.Shape.{IsTable}
use saurus.HashMap.Table.{HashTable, map_create_empty, map_get, map_length}
use saurus.HashMap.Trie.{size}
use saurus.Vm.{Value, object}
use saurus.Vm.CallBounds.{InBounds}
use saurus.Vm.Closures.{global_name, find_global, get_global}
use saurus.Vm.Hash.{murmur, value_eq, value_equality, hash_value}
use saurus.Vm.Host.{su_init}
use saurus.Vm.Interned.{Interns, some_injective}
use saurus.Vm.State.{Heap, Machine, Platform, su_string, su_map, su_local}

module _ {N : Type 0} where
  -- The table of one string.
  one_Interns :
      (heap : Heap N) (g : ℕ) (str : List ℕ)
      → heap.string_objects ≡ record { hash = g; str = str } ∷ []
      → heap.strings ≡ record { cnt = 1; root = leaf_node (record { hash = g; key = g; val = 0 }) }
      → g < 2 ^ 32
      → Interns heap
  unfolding map_get size
  one_Interns heap g str objects strings lt = record {
    table = rw strings (record { root = lt; count = refl });
    named = λ h p lt' e. elim (Bool-cases (h == g)) [
      | inl k ↦
          let same = (==_iff h g).0 k in
          let found : ok (some 0) ≡ ok (some p) = (rw (strings, k) at e) in
          let first : 0 ≡ p = some_injective found in
          (
            str,
            ap (fetch heap.string_objects) (sym first)
                ∙ ap (λ l. fetch l 0) objects
                ∙ ap (λ (n : ℕ). ok (record { hash = n; str = str })) (sym same),
          )
      | inr k ↦ let missing : ok none ≡ ok (some p) = (rw (strings, k) at e) in absurd (cc)
    ];
  }

module _ {N : Type 0} (platform : Platform N) where
  abbrev pub global_hash : ℕ
  global_hash = murmur (global_name platform) 0

  abbrev globals_table : HashTable (Value N) (Value N)
  globals_table = record {
    cnt = 1;
    root =
        leaf_node
          (record { hash = global_hash; key = object su_string 0; val = object su_local 0 });
  }

  abbrev started : Machine N
  started = record {
    pc = 65535;
    narg = 0;
    stack = [];
    frames = [];
    func = 0;
    heap = record {
      functions = [];
      string_objects = record { hash = global_hash; str = global_name platform } ∷ [];
      vectors = [];
      maps = map_create_empty ∷ globals_table ∷ [];
      locals = object su_map 0 ∷ [];
      seqs = [];
      strings = record {
        cnt = 1;
        root = leaf_node (record { hash = global_hash; key = global_hash; val = 0 });
      };
      globals = 1;
    };
  }

  pub murmur-lt : global_hash < 2 ^ 32
  unfolding murmur
  murmur-lt = omega arith

  su_init_lem : su_init platform ≡ ok started
  unfolding su_init map_get
  su_init_lem = refl

  started-Interns : Interns started.heap
  started-Interns =
      one_Interns started.heap global_hash (global_name platform) refl refl (murmur-lt)

  global_found : get_global platform started.heap (object su_string 0) ≡ ok (object su_local 0)
  unfolding get_global value_eq
  global_found = refl

  -- The map of globals has one key.
  one_global :
      (q : Value N) (h : ℕ)
      → Ensures
          (λ (r : Option (Value N)).
            (v : Value N)
            → r ≡ some v
            → (value_eq platform q (object su_string 0) ≡ true) × (v ≡ object su_local 0))
          (map_get (value_equality platform) globals_table q h)
  unfolding map_get
  one_global q h = elim (Bool-cases (h == global_hash)) [
    | inl e ↦ elim (Bool-cases (value_eq platform q (object su_string 0))) [
      | inl k ↦ rw (e, k) (ok-Ensures _ _ λ v e'. (refl, cc))
      | inr k ↦ rw (e, k) (ok-Ensures _ _ λ v e'. absurd (cc))
    ]
    | inr e ↦ rw e (ok-Ensures _ _ λ v e'. absurd (cc))
  ]

  globals_found :
      (key v : Value N)
      → find_global platform started.heap key ≡ ok (some v)
      → (value_eq platform key (object su_string 0) ≡ true) × (v ≡ object su_local 0)
  unfolding find_global
  globals_found key v e =
      let b : Ensures
          (λ (r : Option (Value N)).
            (w : Value N)
            → r ≡ some w
            → (value_eq platform key (object su_string 0) ≡ true) × (w ≡ object su_local 0))
          (find_global platform started.heap key) =
        bind-Ensures _ (hash_value platform started.heap key) _ λ h hashed. one_global key h in
      b.holds (some v) e v refl

  -- `su_init` ends with an empty stack and no frames, in bounds, with one string, "_G", one local reference, to
  -- an empty map, and a table of strings in which each hash finds a string with that hash. The map of globals is
  -- well formed and has one key. A search for "_G" finds that reference, and a search for a key that is not equal
  -- to "_G" finds nothing.
  pub su_init-Starts :
      (m : Machine N) × (su_init platform ≡ ok m)
      × InBounds m
      × Interns m.heap
      × (m.stack ≡ [])
      × (m.frames ≡ [])
      × (m.heap.string_objects ≡ record { hash = global_hash; str = global_name platform } ∷ [])
      × (map_length m.heap.strings ≡ 1)
      × (m.heap.locals ≡ object su_map 0 ∷ [])
      × (fetch m.heap.maps 0 ≡ ok map_create_empty)
      × (get_global platform m.heap (object su_string 0) ≡ ok (object su_local 0))
      × (globals : HashTable (Value N) (Value N)) × (fetch m.heap.maps m.heap.globals ≡ ok globals)
      × IsTable (value_equality platform) globals
      × (map_length globals ≡ 1)
      × ((key v : Value N)
          → find_global platform m.heap key ≡ ok (some v)
          → (value_eq platform key (object su_string 0) ≡ true) × (v ≡ object su_local 0))
  unfolding map_length size
  su_init-Starts = (
    started,
    su_init_lem,
    record { stack_fits = omega arith; frames_fit = omega arith },
    started-Interns,
    refl,
    refl,
    refl,
    refl,
    refl,
    refl,
    global_found,
    globals_table,
    refl,
    record { root = murmur-lt; count = refl },
    refl,
    globals_found,
  )
