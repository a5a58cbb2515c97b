-- ===== src/Vm/Strings.antt =====
-- The interned strings of src/vm/core.c, and the values of constants.
use saurus.Base.{
  ℕ, Option, true, false, none, some, List, [], ◌∷◌, ◌++◌, length, ◌==◌, Run, ok, ◌>>=◌,
}
use saurus.HashMap.{Equality}
use saurus.HashMap.Table.{map_get, map_insert}
use saurus.Image.{Constant, cnil, cfalse, ctrue, cnumber, cstring}
use saurus.Vm.{Value, nil, boolean, number, object}
use saurus.Vm.Hash.{murmur}
use saurus.Vm.State.{Heap, su_string}

-- The keys are native pointers made of the hash, and the values strings, which `value_eq` compares by pointer.
abbrev pub string_equality : Equality ℕ ℕ
string_equality = record { key_eq = ◌==◌; val_eq = ◌==◌ }

module _ {N : Type 0} where
  -- The string that the search found, or a new one: the pointer to it, and the heap.
  unfoldable pub found_string : Heap N → (hash : ℕ) → (str : List ℕ) → Option ℕ → Run (ℕ × Heap N)
  found_string heap hash str (some p) = ok (p, heap)
  found_string heap hash str none =
      let p = length heap.string_objects in
      map_insert string_equality heap.strings hash hash p >>= λ strings. ok (
        p,
        record heap {
          string_objects = heap.string_objects ++ record { hash = hash; str = str } ∷ [];
          strings = strings;
        },
      )

  -- `size` is the length of `str`.
  unfoldable pub string_from_db : Heap N → (hash : ℕ) → (str : List ℕ) → Run (ℕ × Heap N)
  unfolding found_string
  string_from_db heap hash str =
      map_get string_equality heap.strings hash hash >>= λ v. found_string heap hash str v

  -- `create_value`
  unfoldable pub create_value : Heap N → Constant N → Run (Value N × Heap N)
  unfolding string_from_db murmur
  create_value heap (cstring str) =
      string_from_db heap (murmur str 0) str >>= λ r. ok (object su_string r.0, r.1)
  create_value heap (cnumber n) = ok (number n, heap)
  create_value heap ctrue = ok (boolean true, heap)
  create_value heap cfalse = ok (boolean false, heap)
  create_value heap cnil = ok (nil, heap)

  -- The loop of `lambda` over the constants.
  unfoldable pub create_values : Heap N → List (Constant N) → Run (List (Value N) × Heap N)
  unfolding create_value
  create_values heap [] = ok ([], heap)
  create_values heap (c ∷ cs) =
      create_value heap c >>= λ r. create_values r.1 cs >>= λ s. ok (r.0 ∷ s.0, s.1)
