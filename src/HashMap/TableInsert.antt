-- ===== src/HashMap/TableInsert.antt =====
-- `map_insert` of src/vm/seq.c and the searches after it.
use saurus.Base.{
  ℕ, ◌+◌, ◌^◌, ◌<◌, ◌≡◌, refl, ap, sym, subst, ◌∙◌, Bool, true, false, Option, none, some, ◌⊎◌, inl,
  inr, ok, ◌>>=◌, add_int-ok, int_bound, arith,
}
use saurus.HashMap.Update.{Update, changed, create_leaf_node, node_set}
use saurus.HashMap.Table.{HashTable, levels, map_length, insert_result, map_get, map_insert}
use saurus.HashMap.Trie.{size}
use saurus.HashMap.Written.{EqualityLaws, Puts, result, leaf_hit, leaf_miss, to_nat}
use saurus.HashMap.Insert.{node_set-Puts}
use saurus.HashMap.Shape.{
  HashLaws, IsRoot, IsTable, IsTrie-IsRoot, map_get-find, map_get-some, map_get-none,
}
use saurus.HashMap.{
  Equality, Leaf, MapNode, empty_node, leaf_node, collision_node, idx_node, full_node, get_hash,
  find,
}

module _ {ℓ} {K V : Type ℓ} (eq : Equality K V) (laws : EqualityLaws eq) where
  empty-Puts :
      (leaf : Leaf K V)
      → leaf.hash < 2 ^ 32
      → Puts eq 0 empty_node leaf (changed (leaf_node leaf) true)
  unfolding find get_hash size
  empty-Puts leaf lt = record {
    trie = lt;
    agree = refl;
    hit = λ q e. (leaf, ap ok (leaf_hit eq leaf q e), laws.val_refl leaf.val);
    miss = λ h q ne. ap ok (leaf_miss eq leaf h q ne);
    counts = refl;
    fresh = λ e. refl;
    present = λ e. absurd (cc);
  }

  root_set-Puts :
      (n : MapNode K V) (leaf : Leaf K V)
      → IsRoot eq n
      → leaf.hash < 2 ^ 32
      → (u : Update K V) × (node_set eq levels n 0 leaf ≡ ok u) × Puts eq 0 n leaf u
  unfolding node_set get_hash
  root_set-Puts empty_node leaf t lt = (changed (leaf_node leaf) true, refl, empty-Puts leaf lt)
  root_set-Puts (leaf_node old) leaf t lt =
      node_set-Puts eq laws levels 0 (omega arith) (omega arith) (leaf_node old) leaf t lt
        (omega arith)
  root_set-Puts (collision_node hash leaves) leaf t lt =
      node_set-Puts eq laws levels 0 (omega arith) (omega arith) (collision_node hash leaves) leaf t
        lt (omega arith)
  root_set-Puts (idx_node bitmap shift hash ns) leaf t lt =
      node_set-Puts eq laws levels 0 (omega arith) (omega arith) (idx_node bitmap shift hash ns)
        leaf t lt (omega arith)
  root_set-Puts (full_node shift hash ns) leaf t lt =
      node_set-Puts eq laws levels 0 (omega arith) (omega arith) (full_node shift hash ns) leaf t lt
        (omega arith)

  -- The new map has the node that `set` stands for, and counts its leaves.
  insert_result-root :
      (m : HashTable K V) (leaf : Leaf K V) (node : Option (MapNode K V)) (added : Bool)
      → IsTable eq m
      → m.cnt + 1 < int_bound
      → Puts eq 0 m.root leaf (record { node = node; added = added })
      → (m' : HashTable K V) × (insert_result m (record { node = node; added = added }) ≡ ok m')
        × (m'.root ≡ result eq m.root (record { node = node; added = added }))
        × (m'.cnt ≡ m.cnt + to_nat added)
  unfolding insert_result
  insert_result-root m leaf none true t lt p = absurd (omega (arith, p.counts))
  insert_result-root m leaf none false t lt p = (m, refl, refl, omega arith)
  insert_result-root m leaf (some c) true t lt p =
      (record { cnt = m.cnt + 1; root = c }, rw (add_int-ok m.cnt 1 lt), refl, refl)
  insert_result-root m leaf (some c) false t lt p =
      (record { cnt = m.cnt; root = c }, refl, refl, omega arith)

  module _ (value_hash : K → ℕ) (hashes : HashLaws eq value_hash) where
    -- What `map_insert` is to do.
    pub record Inserted (m : HashTable K V) (key : K) (val : V) (m' : HashTable K V) : Type ℓ where
      pub table : IsTable eq m'
      pub hit :
          (q : K)
          → eq.key_eq q key ≡ true
          → (v : V) × (map_get eq m' q (value_hash q) ≡ ok (some v)) × (eq.val_eq val v ≡ true)
      pub miss :
          (q : K)
          → eq.key_eq q key ≡ false
          → map_get eq m' q (value_hash q) ≡ map_get eq m q (value_hash q)
      pub counts :
          ((map_get eq m key (value_hash key) ≡ ok none) × (map_length m' ≡ map_length m + 1))
          ⊎ ((v : V) × (map_get eq m key (value_hash key) ≡ ok (some v))
              × (map_length m' ≡ map_length m))

    -- How the length changes.
    length-insert :
        (m m' : HashTable K V) (leaf : Leaf K V) (u : Update K V) (added : Bool)
        → Puts eq 0 m.root leaf u
        → u.added ≡ added
        → m'.cnt ≡ m.cnt + to_nat u.added
        → ((map_get eq m leaf.key leaf.hash ≡ ok none) × (map_length m' ≡ map_length m + 1))
          ⊎ ((v : V) × (map_get eq m leaf.key leaf.hash ≡ ok (some v))
              × (map_length m' ≡ map_length m))
    unfolding map_length
    length-insert m m' leaf u true p e c =
        inl (map_get-none eq m leaf.key leaf.hash (p.fresh e), c ∙ ap (λ b. m.cnt + to_nat b) e)
    length-insert m m' leaf u false p e c =
        let (lf, run) = p.present e in
        inr (
          lf.val,
          map_get-some eq m leaf.key leaf.hash lf run,
          c ∙ ap (λ b. m.cnt + to_nat b) e ∙ omega arith,
        )

    put-Inserted :
        (m m' : HashTable K V) (key : K) (val : V) (u : Update K V)
        → IsTable eq m
        → Puts eq 0 m.root (create_leaf_node (value_hash key) key val) u
        → m'.root ≡ result eq m.root u
        → m'.cnt ≡ m.cnt + to_nat u.added
        → Inserted m key val m'
    put-Inserted m m' key val u t p e c = record {
      table = record {
        root = subst (IsRoot eq) (sym e) (IsTrie-IsRoot eq (result eq m.root u) p.trie);
        count = c ∙ omega (arith, t.count, p.counts) ∙ ap size (sym e);
      };
      hit = λ q k.
          let (lf, run, v) = p.hit q k in
          (
            lf.val,
            map_get-some eq m' q (value_hash q) lf (
                ap (λ h. find eq m'.root h q) (hashes.hash_congr q key k)
                ∙ ap (λ n. find eq n (value_hash key) q) e
                ∙ run),
            v,
          );
      miss = λ q k.
          map_get-find eq m m' q (value_hash q)
            (ap (λ n. find eq n (value_hash q) q) e ∙ p.miss (value_hash q) q (λ t'. absurd (cc)));
      counts = length-insert m m' (create_leaf_node (value_hash key) key val) u u.added p refl c;
    }

    -- On a well-formed map whose length plus one is less than 2^31 `map_insert` ends with a
    -- well-formed map, in which a search for any key equal to the inserted one gives a value equal to
    -- the inserted one, and a search for any other key gives what it gave before. The length is one
    -- more if the key was not in the map, and the same if it was.
    pub map_insert-Inserted :
        (m : HashTable K V) (key : K) (val : V)
        → IsTable eq m
        → map_length m + 1 < int_bound
        → (m' : HashTable K V) × (map_insert eq m key (value_hash key) val ≡ ok m')
          × Inserted m key val m'
    unfolding map_insert map_length
    map_insert-Inserted m key val t lt =
        let leaf = create_leaf_node (value_hash key) key val in
        let (u, run, p) = root_set-Puts m.root leaf t.root (hashes.hash-lt key) in
        let (m', made, e, c) = insert_result-root m leaf u.node u.added t lt p in
        (m', ap (λ x. x >>= insert_result m) run ∙ made, put-Inserted m m' key val u t p e c)
