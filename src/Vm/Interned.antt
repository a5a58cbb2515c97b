-- ===== src/Vm/Interned.antt =====
-- The table of interned strings of src/vm/core.c.
use saurus.Base.{
  fetch-lt, ℕ, ◌+◌, ◌%◌, ◌^◌, ◌<◌, ◌≡◌, refl, ap, sym, ◌∙◌, none, some, Option-cases, List, [], ◌∷◌,
  ◌++◌, length, ◌==◌, ==_iff, ==_refl, ==_symm, ok, fetch, fetch-append_left, fetch_end, int_bound,
  Bool-cases, inl, inr, arith,
}
use saurus.HashMap.Shape.{HashLaws, IsTable, map_get-total}
use saurus.HashMap.Table.{HashTable, map_get, map_length}
use saurus.HashMap.TableInsert.{Inserted, map_insert-Inserted}
use saurus.HashMap.Written.{EqualityLaws}
use saurus.Vm.State.{Heap}
use saurus.Vm.Strings.{string_equality, string_from_db}

abbrev word_bound : ℕ
word_bound = 2 ^ 32

-- The key of a hash is the hash.
abbrev hash_of : ℕ → ℕ
hash_of k = k % word_bound

string_laws : EqualityLaws string_equality
string_laws = record {
  key_refl = ==_refl;
  key_symm = ==_symm;
  key_trans = λ a b c p q. (==_iff a c).1 ((==_iff a b).0 p ∙ (==_iff b c).0 q);
  val_refl = ==_refl;
}

hash_laws : HashLaws string_equality hash_of
hash_laws = record {
  hash-lt = λ k. omega arith;
  hash_congr = λ a b e. ap hash_of ((==_iff a b).0 e);
}

-- What a search for a hash gives is a string with that hash.
pub record Interns {N : Type 0} (heap : Heap N) : Type 0 where
  pub table : IsTable string_equality heap.strings
  pub named :
      (h p : ℕ)
      → h < word_bound
      → map_get string_equality heap.strings h h ≡ ok (some p)
      → (str : List ℕ) × (fetch heap.string_objects p ≡ ok (record { hash = h; str = str }))

pub some_injective : {a b : ℕ} → ok (some a) ≡ ok (some b) → a ≡ b
some_injective e = cc

module _ {N : Type 0} (heap : Heap N) (good : Interns heap) (hash : ℕ)
    (lt : hash < word_bound) where
  -- The string that is found or made for a hash.
  pub record Interned (str : List ℕ) (p : ℕ) (heap' : Heap N) : Type 0 where
    pub good' : Interns heap'
    pub again : (str' : List ℕ) → string_from_db heap' hash str' ≡ ok (p, heap')
    pub object :
        (s : List ℕ) × (fetch heap'.string_objects p ≡ ok (record { hash = hash; str = s }))
    pub fresh :
        map_get string_equality heap.strings hash hash ≡ ok none
        → fetch heap'.string_objects p ≡ ok (record { hash = hash; str = str })

  same_hash : hash_of hash ≡ hash
  same_hash = omega (arith, lt)

  found_again :
      (heap' : Heap N) (p : ℕ) (str : List ℕ)
      → map_get string_equality heap'.strings hash hash ≡ ok (some p)
      → string_from_db heap' hash str ≡ ok (p, heap')
  unfolding string_from_db
  found_again heap' p str e = rw e

  old_Interned :
      (str : List ℕ) (p : ℕ)
      → map_get string_equality heap.strings hash hash ≡ ok (some p)
      → Interned str p heap
  old_Interned str p e = record {
    good' = good;
    again = λ str'. found_again heap p str' e;
    object = good.named hash p lt e;
    fresh = λ n. absurd (cc);
  }

  added : (str : List ℕ) → HashTable ℕ ℕ → Heap N
  added str strings = record heap {
    string_objects = heap.string_objects ++ record { hash = hash; str = str } ∷ [];
    strings = strings;
  }

  added-Interned :
      (str : List ℕ) (strings : HashTable ℕ ℕ)
      → Inserted string_equality string_laws hash_of hash_laws heap.strings hash
          (length heap.string_objects)
          strings
      → Interned str (length heap.string_objects) (added str strings)
  unfolding added
  added-Interned str strings i =
      let objects = heap.string_objects ++ record { hash = hash; str = str } ∷ [] in
      let (v, got, same) = i.hit hash (==_refl hash) in
      let found : map_get string_equality strings hash hash
          ≡ ok (some (length heap.string_objects)) =
        ap (map_get string_equality strings hash) (sym same_hash)
        ∙ got
        ∙ ap (λ (q : ℕ). ok (some q)) (sym ((==_iff (length heap.string_objects) v).0 same)) in
      let last = fetch_end heap.string_objects (record { hash = hash; str = str }) in
      record {
        good' = record {
          table = i.table;
          named = λ h p lt' e. elim (Bool-cases (h == hash)) [
            | inl k ↦
                let it = (==_iff h hash).0 k in
                let there : length heap.string_objects ≡ p =
                  some_injective (
                    sym found ∙ ap (λ (g : ℕ). map_get string_equality strings g g) (sym it) ∙ e) in
                (
                  str,
                  ap (fetch objects) (sym there)
                      ∙ last
                      ∙ ap (λ (g : ℕ). ok (record { hash = g; str = str })) (sym it),
                )
            | inr k ↦
                let own : hash_of h ≡ h = omega (arith, lt') in
                let before : map_get string_equality heap.strings h h ≡ ok (some p) =
                  ap (map_get string_equality heap.strings h) (sym own)
                  ∙ sym (i.miss h k)
                  ∙ ap (map_get string_equality strings h) own
                  ∙ e in
                let (s, at') = good.named h p lt' before in
                (
                  s,
                  fetch-append_left heap.string_objects _ p (fetch-lt heap.string_objects p _ at')
                      ∙ at',
                )
          ];
        };
        again = λ str'. found_again (added str strings) (length heap.string_objects) str' found;
        object = (str, last);
        fresh = λ n. last;
      }

  -- From a table in which each hash finds a string with that hash, and with room for one more, `string_from_db`
  -- ends. It leaves such a table, the string that it gives has the hash, and it is `str` if no string had the
  -- hash before. After that it gives the same string for the same hash, whatever bytes it is asked for.
  pub string_from_db-Interned :
      (str : List ℕ)
      → map_length heap.strings + 1 < int_bound
      → (p : ℕ) × (heap' : Heap N) × (string_from_db heap hash str ≡ ok (p, heap'))
        × Interned str p heap'
  unfolding string_from_db added
  string_from_db-Interned str room =
      let (o, run) = map_get-total string_equality heap.strings hash hash good.table in
      elim (Option-cases o) [
        | inr (p, e) ↦
            let got = run ∙ ap ok e in (p, heap, found_again heap p str got, old_Interned str p got)
        | inl e ↦
            let got = run ∙ ap ok e in
            let p = length heap.string_objects in
            let (strings, made, i) =
              map_insert-Inserted string_equality string_laws hash_of hash_laws heap.strings hash p
                good.table room in
            let made' = rw same_hash at made in
            (p, added str strings, rw (got, made') refl, added-Interned str strings i)
      ]
