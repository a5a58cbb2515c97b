-- ===== src/Vector.antt =====
-- The persistent vector of src/vm/seq.c: a tree of nodes of at most 32 slots, and a tail.
-- A node at level 0 holds values, a node at level d + 1 (`level` 5 (d + 1) in the source) holds nodes
-- of level d. Nodes are never changed once they are linked, so a node is its contents.
pub mod Shape
pub mod Chunks
pub mod Walk
pub mod Index
pub mod Writes
pub mod Set
pub mod PushTail
pub mod Push
pub mod PopTail
pub mod Pop
pub mod Bounds
use saurus.Base.{
  ℕ, zero, suc, ◌+◌, ◌-◌, ◌*◌, ◌/◌, ◌%◌, ◌^◌, Bool, true, false, ◌&&◌, Option, none, some, List, [],
  ◌∷◌, ◌++◌, length, take, fetch, store, fetch_last, store_last, ltb, leb, ◌==◌, if◌then◌else◌, Run,
  ok, raise, fault, ◌>>=◌, Error, index_out_of_bounds, pop_empty_vector, add_int, ℤ, pos, negsuc,
}

module _ {ℓ} (A : Type ℓ) where
  abbrev pub VectorNode : ℕ → Type ℓ
  VectorNode zero = List A
  VectorNode (suc d) = List (VectorNode d)

  -- `shift` is `5 * (depth + 1)`: the root is never a node of values.
  pub record Vector : Type ℓ where
    pub cnt : ℕ
    pub depth : ℕ
    pub root : VectorNode (suc depth)
    pub tail : List A

-- `(i >> level) & 0x01f` at `level` 5 d.
unfoldable pub sub_index : ℕ → ℕ → ℕ
sub_index i d = (i / 32 ^ d) % 32

-- Nodes of any level.
module _ {ℓ} {B : Type ℓ} where
  -- The end of `push_tail`: the new child goes into this node, or into a new one beside it.
  pub expand : List B → B → List B × Option (List B)
  expand arr new_child =
      if length arr == 32 then (arr, some (new_child ∷ [])) else (arr ++ new_child ∷ [], none)

  -- The end of `pop_tail`; `none` is `NULL`.
  pub contract : List B → Option (List B)
  contract arr = if length arr == 1 then none else some (take (length arr - 1) arr)

  -- The result of `pop_tail` as a root: an empty one for `NULL`.
  abbrev pub or_empty : Option (List B) → List B
  or_empty none = []
  or_empty (some r) = r

module _ {ℓ} {A : Type ℓ} where
  unfoldable pub vector_length : Vector A → ℕ
  vector_length v = v.cnt

  -- `tailoff(v)`
  unfoldable pub tailoff : Vector A → ℕ
  tailoff v = v.cnt - length v.tail

  -- The loop of `vector_index` from a node down to a value.
  pub node_index : (d : ℕ) → VectorNode A d → ℕ → Run A
  node_index zero arr i = fetch arr (sub_index i 0)
  node_index (suc d) arr i = fetch arr (sub_index i (suc d)) >>= λ child. node_index d child i

  unfoldable pub vector_index : Vector A → ℤ → Run A
  unfolding node_index tailoff
  vector_index v (negsuc n) = raise index_out_of_bounds
  vector_index v (pos i) =
      if ltb i v.cnt
      then (if leb (tailoff v) i
          then fetch v.tail (sub_index i 0)
          else node_index (suc v.depth) v.root i)
      else raise index_out_of_bounds

  unfoldable pub vector_create : (cnt depth : ℕ) → VectorNode A (suc depth) → List A → Vector A
  vector_create cnt depth root tail = record { cnt = cnt; depth = depth; root = root; tail = tail }

  unfoldable pub vector_create_empty : Vector A
  unfolding vector_create
  vector_create_empty = vector_create 0 0 [] []

  -- The second part of the result is `*expansion`. The first index is `level` / 5.
  pub push_tail :
      (d : ℕ)
      → VectorNode A (suc d)
      → List A
      → Run (VectorNode A (suc d) × Option (VectorNode A (suc d)))
  unfolding expand
  push_tail zero arr tail_node = ok (expand arr tail_node)
  push_tail (suc d) arr tail_node = do
    last ← fetch_last arr
    (new_child, expansion) ← push_tail d last tail_node
    elim expansion [
      | none ↦ store_last arr new_child >>= λ ret. ok (ret, none)
      | some expanded ↦ ok (expand arr expanded)
    ]

  -- The new root, one level up if the old one was expanded.
  pub grow_root :
      (cnt depth : ℕ) → VectorNode A (suc depth) → Option (VectorNode A (suc depth)) → A → Vector A
  unfolding vector_create
  grow_root cnt depth new_root none val = vector_create cnt depth new_root (val ∷ [])
  grow_root cnt depth new_root (some expansion) val =
      vector_create cnt (suc depth) (new_root ∷ expansion ∷ []) (val ∷ [])

  unfoldable pub vector_push : Vector A → A → Run (Vector A)
  unfolding push_tail grow_root
  vector_push v val =
      if ltb (length v.tail) 32
      then (add_int v.cnt 1 >>= λ cnt. ok (vector_create cnt v.depth v.root (v.tail ++ val ∷ [])))
      else (do
        (new_root, expansion) ← push_tail v.depth v.root v.tail
        cnt ← add_int v.cnt 1
        ok (grow_root cnt v.depth new_root expansion val))

  -- `insert` of the vector.
  pub node_set : (d : ℕ) → VectorNode A d → ℕ → A → Run (VectorNode A d)
  node_set zero arr i val = store arr (sub_index i 0) val
  node_set (suc d) arr i val = do
    child ← fetch arr (sub_index i (suc d))
    new_child ← node_set d child i val
    store arr (sub_index i (suc d)) new_child

  unfoldable pub vector_set : Vector A → ℤ → A → Run (Vector A)
  unfolding node_set tailoff vector_create
  vector_set v (negsuc n) val = raise index_out_of_bounds
  vector_set v (pos i) val =
      if ltb i v.cnt
      then (if leb (tailoff v) i
          then (store v.tail (sub_index i 0) val >>= λ t. ok (vector_create v.cnt v.depth v.root t))
          else (node_set (suc v.depth) v.root i val >>= λ r.
              ok (vector_create v.cnt v.depth r v.tail)))
      else raise index_out_of_bounds

  -- The result with `*ptail`.
  pub pop_tail : (d : ℕ) → VectorNode A (suc d) → Run (Option (VectorNode A (suc d)) × List A)
  unfolding contract
  pop_tail zero arr = fetch_last arr >>= λ ptail. ok (contract arr, ptail)
  pop_tail (suc d) arr = do
    last ← fetch_last arr
    (new_child, ptail) ← pop_tail d last
    elim new_child [
      | some child ↦ store_last arr child >>= λ ret. ok (some ret, ptail)
      | none ↦ ok (contract arr, ptail)
    ]

  -- The new root, one level down if it has a single child and `shift > 5`.
  pub shrink_root : (cnt depth : ℕ) → VectorNode A (suc depth) → List A → Run (Vector A)
  unfolding vector_create
  shrink_root cnt zero new_root ptail = ok (vector_create cnt 0 new_root ptail)
  shrink_root cnt (suc d) new_root ptail =
      if length new_root == 1
      then (fetch new_root 0 >>= λ child. ok (vector_create cnt d child ptail))
      else ok (vector_create cnt (suc d) new_root ptail)

  unfoldable pub vector_pop : Vector A → Run (Vector A)
  unfolding vector_create_empty vector_create pop_tail shrink_root
  vector_pop v =
      if v.cnt == 0
      then raise pop_empty_vector
      else if v.cnt == 1
      then ok vector_create_empty
      else if ltb 1 (length v.tail)
      then ok (vector_create (v.cnt - 1) v.depth v.root (take (length v.tail - 1) v.tail))
      else (do
        (new_root, ptail) ← pop_tail v.depth v.root
        shrink_root (v.cnt - 1) v.depth (or_empty new_root) ptail)
