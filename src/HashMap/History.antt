-- ===== src/HashMap/History.antt =====
-- The hash map of src/vm/seq.c against the history of the calls on it.
use saurus.Base.{
  ℕ, ◌≤◌, ◌<◌, ◌≡◌, refl, ap, ◌∙◌, true, Option, none, some, List, [], ◌∷◌, length, Bool-cases, inl,
  inr, if◌then◌else◌, Run, ok, ◌>>=◌, int_bound, arith,
}
use saurus.HashMap.Table.{HashTable, map_create_empty, map_length, map_get, map_insert, map_remove}
use saurus.HashMap.Trie.{size}
use saurus.HashMap.Written.{EqualityLaws}
use saurus.HashMap.Shape.{HashLaws, IsTable, map_get-none}
use saurus.HashMap.TableInsert.{Inserted, map_insert-Inserted}
use saurus.HashMap.TableRemove.{Deleted, map_remove-Deleted}
use saurus.HashMap.{Equality, find}

-- A call that makes a new map.
pub data Call {ℓ} (K V : Type ℓ) : Type ℓ where
  insert : K → V → Call K V
  remove : K → Call K V

module _ {ℓ} {K V : Type ℓ} (eq : Equality K V) (value_hash : K → ℕ) where
  abbrev pub apply : Call K V → HashTable K V → Run (HashTable K V)
  apply (insert key val) m = map_insert eq m key (value_hash key) val
  apply (remove key) m = map_remove eq m key (value_hash key)

  -- The calls from the empty map on, the last one first.
  abbrev pub run : List (Call K V) → Run (HashTable K V)
  run [] = ok map_create_empty
  run (call ∷ earlier) = run earlier >>= apply call

  -- The value of the last `insert` of the key, unless a `remove` came after it.
  abbrev pub expected : List (Call K V) → K → Option V
  expected [] q = none
  expected (insert key val ∷ earlier) q = if eq.key_eq q key then some val else expected earlier q
  expected (remove key ∷ earlier) q = if eq.key_eq q key then none else expected earlier q

  -- Nothing, or a value equal to the expected one.
  abbrev pub Finds : Run (Option V) → Option V → Type ℓ
  Finds got none = (got ≡ ok none)
  Finds got (some val) = (v : V) × (got ≡ ok (some v)) × (eq.val_eq val v ≡ true)

  pub record Reflects (calls : List (Call K V)) (m : HashTable K V) : Type ℓ where
    pub table : IsTable eq m
    pub finds : (q : K) → Finds (map_get eq m q (value_hash q)) (expected calls q)
    pub bound : map_length m ≤ length calls

  Finds-resp : (o : Option V) (got got' : Run (Option V)) → got' ≡ got → Finds got o → Finds got' o
  Finds-resp none got got' e f = e ∙ f
  Finds-resp (some val) got got' e f = let (v, run', s) = f in (v, e ∙ run', s)

  module _ (laws : EqualityLaws eq) (hashes : HashLaws eq value_hash) where
    empty-Reflects : Reflects [] map_create_empty
    unfolding map_length find size
    empty-Reflects = record {
      table = record { root = tt; count = refl };
      finds = λ q. map_get-none eq map_create_empty q (value_hash q) refl;
      bound = omega arith;
    }

    insert-Reflects :
        (calls : List (Call K V)) (m m' : HashTable K V) (key : K) (val : V)
        → Reflects calls m
        → Inserted eq laws value_hash hashes m key val m'
        → Reflects (insert key val ∷ calls) m'
    insert-Reflects calls m m' key val r i = record {
      table = i.table;
      finds = λ q. elim (Bool-cases (eq.key_eq q key)) [
        | inl e ↦ rw e (i.hit q e)
        | inr e ↦ rw e (Finds-resp (expected calls q) _ _ (i.miss q e) (r.finds q))
      ];
      bound = elim i.counts [
        | inl (a, b) ↦ omega (arith, b, r.bound)
        | inr (v, a, b) ↦ omega (arith, b, r.bound)
      ];
    }

    remove-Reflects :
        (calls : List (Call K V)) (m m' : HashTable K V) (key : K)
        → Reflects calls m
        → Deleted eq laws value_hash hashes m key m'
        → Reflects (remove key ∷ calls) m'
    remove-Reflects calls m m' key r d = record {
      table = d.table;
      finds = λ q. elim (Bool-cases (eq.key_eq q key)) [
        | inl e ↦ rw e (d.hit q e)
        | inr e ↦ rw e (Finds-resp (expected calls q) _ _ (d.miss q e) (r.finds q))
      ];
      bound = elim d.counts [
        | inl (a, b) ↦ omega (arith, ap map_length b, r.bound)
        | inr (v, a, b) ↦ omega (arith, b, r.bound)
      ];
    }

    -- Every history of fewer than 2^31 inserts and removes runs to a map: no call in it faults. That
    -- map is well formed, its length is at most the number of calls, and a search for any key gives a
    -- value equal to the one last inserted for an equal key, or nothing if there is none or an equal
    -- key was removed after it. Keys are compared by an equivalence that their hashes respect.
    pub run-Reflects :
        (calls : List (Call K V))
        → length calls < int_bound
        → (m : HashTable K V) × (run calls ≡ ok m) × Reflects calls m
    run-Reflects [] lt = (map_create_empty, refl, empty-Reflects)
    run-Reflects (insert key val ∷ calls) lt =
        let (m, before, r) = run-Reflects calls (omega arith) in
        let (m', made, i) =
          map_insert-Inserted eq laws value_hash hashes m key val r.table
            (omega (arith, r.bound)) in
        (m', rw before made, insert-Reflects calls m m' key val r i)
    run-Reflects (remove key ∷ calls) lt =
        let (m, before, r) = run-Reflects calls (omega arith) in
        let (m', made, d) = map_remove-Deleted eq laws value_hash hashes m key r.table in
        (m', rw before made, remove-Reflects calls m m' key r d)
