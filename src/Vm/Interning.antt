-- ===== src/Vm/Interning.antt =====
-- What interning a string, in src/vm/core.c, leaves alone.
use saurus.Base.{
  fetch-lt, ℕ, ◌≡◌, refl, ap, ◌∙◌, Option, none, some, List, length, Ensures, ok-Ensures,
  bind-Ensures, Run, ok, fetch, fetch-append_left, ◌>>=◌,
}
use saurus.HashMap.Table.{HashTable, map_get, map_insert}
use saurus.Vm.{Value}
use saurus.Vm.State.{Heap, StringObject}
use saurus.Vm.Strings.{string_equality, found_string, string_from_db}
use saurus.Vm.TailCalls.{bind_then}

module _ {N : Type 0} where
  -- Interning does not look at the maps.
  abbrev pub with_maps : Heap N → List (HashTable (Value N) (Value N)) → ℕ → Heap N
  with_maps heap maps globals = record heap { maps = maps; globals = globals }

  found_string-with_maps :
      (heap : Heap N) (hash : ℕ) (str : List ℕ) (maps : List (HashTable (Value N) (Value N)))
      (globals : ℕ) (v : Option ℕ)
      → found_string (with_maps heap maps globals) hash str v
        ≡ (found_string heap hash str v >>= λ r. ok (r.0, with_maps r.1 maps globals))
  unfolding found_string
  found_string-with_maps heap hash str maps globals (some p) = refl
  found_string-with_maps heap hash str maps globals none =
      bind_then (map_insert string_equality heap.strings hash hash (length heap.string_objects)) _ _
        _ λ strings. refl

  pub string_from_db-with_maps :
      (heap heap₁ : Heap N) (hash g : ℕ) (str : List ℕ)
      (maps : List (HashTable (Value N) (Value N))) (globals : ℕ)
      → string_from_db heap hash str ≡ ok (g, heap₁)
      → string_from_db (with_maps heap maps globals) hash str ≡ ok (g, with_maps heap₁ maps globals)
  unfolding string_from_db
  string_from_db-with_maps heap heap₁ hash g str maps globals e =
      bind_then (map_get string_equality heap.strings hash hash) _ _ _
        (found_string-with_maps heap hash str maps globals)
      ∙ ap (λ (r : Run (ℕ × Heap N)). r >>= λ q. ok (q.0, with_maps q.1 maps globals)) e

  -- Interning keeps the strings that there are.
  pub string_from_db-keeps :
      (heap : Heap N) (hash : ℕ) (str : List ℕ) (p : ℕ) (s : StringObject)
      → fetch heap.string_objects p ≡ ok s
      → Ensures
          (λ (r : ℕ × Heap N). fetch r.1.string_objects p ≡ ok s)
          (string_from_db heap hash str)
  unfolding string_from_db found_string
  string_from_db-keeps heap hash str p s there =
      bind-Ensures _ (map_get string_equality heap.strings hash hash) _ λ v searched. found v
    where
      found :
          (v : Option ℕ)
          → Ensures
              (λ (r : ℕ × Heap N). fetch r.1.string_objects p ≡ ok s)
              (found_string heap hash str v)
      found (some q) = ok-Ensures _ _ there
      found none =
          bind-Ensures _
            (map_insert string_equality heap.strings hash hash (length heap.string_objects)) _
            λ strings made. ok-Ensures _ _ (
              fetch-append_left heap.string_objects _ p (fetch-lt heap.string_objects p s there)
              ∙ there)
