-- ===== src/HashMap/TableRemove.antt =====
-- `map_remove` of src/vm/seq.c and the searches after it.
use saurus.Base.{
  ℕ, ◌+◌, ◌-◌, ◌≡◌, refl, ap, ◌∙◌, true, false, none, some, ◌⊎◌, inl, inr, ok, ◌>>=◌, arith,
}
use saurus.HashMap.Without.{Removal, same, null, other}
use saurus.HashMap.Table.{
  HashTable, map_create_empty, map_length, remove_result, map_get, map_remove,
}
use saurus.HashMap.Trie.{size}
use saurus.HashMap.Written.{EqualityLaws}
use saurus.HashMap.Removed.{Removes}
use saurus.HashMap.Remove.{root-Removed}
use saurus.HashMap.Shape.{
  HashLaws, IsTable, IsTrie-IsRoot, map_get-find, map_get-some, map_get-none,
}
use saurus.HashMap.{Equality, find}

module _ {ℓ} {K V : Type ℓ} (eq : Equality K V) (laws : EqualityLaws eq) (value_hash : K → ℕ)
    (hashes : HashLaws eq value_hash) where
  -- What `map_remove` is to do.
  pub record Deleted (m : HashTable K V) (key : K) (m' : HashTable K V) : Type ℓ where
    pub table : IsTable eq m'
    pub hit : (q : K) → eq.key_eq q key ≡ true → map_get eq m' q (value_hash q) ≡ ok none
    pub miss :
        (q : K)
        → eq.key_eq q key ≡ false
        → map_get eq m' q (value_hash q) ≡ map_get eq m q (value_hash q)
    pub counts :
        ((map_get eq m key (value_hash key) ≡ ok none) × (m' ≡ m))
        ⊎ ((v : V) × (map_get eq m key (value_hash key) ≡ ok (some v))
            × (map_length m' + 1 ≡ map_length m))

  pub remove_result-Deleted :
      (m : HashTable K V) (key : K) (r : Removal K V)
      → IsTable eq m
      → Removes eq 0 m.root (value_hash key) key r
      → Deleted m key (remove_result m r)
  unfolding remove_result map_length find size
  remove_result-Deleted m key same t p = record {
    table = t;
    hit = λ q k.
        map_get-none eq m q (value_hash q)
          (ap (λ h. find eq m.root h q) (hashes.hash_congr q key k) ∙ p.hit q k);
    miss = λ q k. refl;
    counts = inl (map_get-none eq m key (value_hash key) p.outcome, refl);
  }
  remove_result-Deleted m key null t p =
      let (lf, run, one) = p.outcome in
      record {
        table = record { root = tt; count = refl };
        hit = λ q k. map_get-none eq map_create_empty q (value_hash q) refl;
        miss = λ q k.
            map_get-find eq m map_create_empty q (value_hash q)
              (p.miss (value_hash q) q (λ t'. absurd (cc)));
        counts =
            inr
              (lf.val, map_get-some eq m key (value_hash key) lf run, omega (arith, one, t.count));
      }
  remove_result-Deleted m key (other c) t p =
      let (lf, run, one) = p.outcome in
      let m' : HashTable K V = record { cnt = m.cnt - 1; root = c } in
      record {
        table = record {
          root = IsTrie-IsRoot eq c p.follows.0;
          count = omega (arith, one, t.count);
        };
        hit = λ q k.
            map_get-none eq m' q (value_hash q)
              (ap (λ h. find eq c h q) (hashes.hash_congr q key k) ∙ p.hit q k);
        miss = λ q k.
            map_get-find eq m m' q (value_hash q) (p.miss (value_hash q) q (λ t'. absurd (cc)));
        counts =
            inr
              (lf.val, map_get-some eq m key (value_hash key) lf run, omega (arith, one, t.count));
      }

  -- On a well-formed map `map_remove` ends with a well-formed map, in which no key equal to the
  -- removed one is found and a search for any other key gives what it gave before. If the key was in
  -- the map the length is one less, and otherwise the result is the map itself.
  pub map_remove-Deleted :
      (m : HashTable K V) (key : K)
      → IsTable eq m
      → (m' : HashTable K V) × (map_remove eq m key (value_hash key) ≡ ok m') × Deleted m key m'
  unfolding map_remove
  map_remove-Deleted m key t =
      let (r, run, p) = root-Removed eq laws (value_hash key) key m.root t.root in
      (
        remove_result m r,
        ap (λ x. x >>= λ y. ok (remove_result m y)) run,
        remove_result-Deleted m key r t p,
      )
