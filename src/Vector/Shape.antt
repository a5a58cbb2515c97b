-- ===== src/Vector/Shape.antt =====
-- What a vector of src/vm/seq.c holds, and the shape that its functions rely on: every node left of
-- the right edge is full, the right edge is not empty, and a root above the lowest level has at
-- least two children.
use saurus.Base.{
  ℕ, zero, suc, ◌≤◌, ◌<◌, ◌≡◌, ◌⊎◌, inl, inr, List, [], ◌∷◌, ◌++◌, length, All, concat_map,
}
use saurus.Vector.{VectorNode, Vector}

-- A node in two parts: `init` satisfies `P` throughout and `last`, `arr->data[arr->len - 1]`,
-- satisfies `Q`.
pub record EndsWith {ℓ κ μ} {B : Type ℓ} (P : B → Type κ) (Q : B → Type μ) (ns : List B)
    : Type (ℓ ⊔ κ ⊔ μ) where
  pub init : List B
  pub last : B
  pub parts : ns ≡ init ++ last ∷ []
  pub fits : length init < 32
  pub inner : All P init
  pub outer : Q last

module _ {ℓ} {A : Type ℓ} where
  -- The values below a node, in order.
  unfoldable pub flat : (d : ℕ) → VectorNode A d → List A
  flat zero xs = xs
  flat (suc d) ns = concat_map (flat d) ns

module _ {ℓ} (A : Type ℓ) where
  abbrev pub IsFull : (d : ℕ) → VectorNode A d → Type 0
  IsFull zero xs = length xs ≡ 32
  IsFull (suc d) ns = (length ns ≡ 32) × All (IsFull d) ns

  abbrev pub IsSpine : (d : ℕ) → VectorNode A (suc d) → Type ℓ
  IsSpine zero ns = EndsWith {B = List A} (IsFull 0) (IsFull 0) ns
  IsSpine (suc d) ns = EndsWith {B = VectorNode A (suc d)} (IsFull (suc d)) (IsSpine d) ns

  abbrev pub HasShape : (depth : ℕ) → VectorNode A (suc depth) → List A → Type ℓ
  HasShape zero root tail = (root ≡ []) ⊎ (IsSpine zero root × (1 ≤ length tail))
  HasShape (suc d) root tail =
      IsSpine (suc d) root × (2 ≤ length {A = VectorNode A (suc d)} root) × (1 ≤ length tail)

  -- The shape asks of the tail only that it is not empty.
  pub HasShape-tail :
      (d : ℕ) (root : VectorNode A (suc d)) (t t' : List A)
      → (1 ≤ length t → 1 ≤ length t')
      → HasShape d root t
      → HasShape d root t'
  HasShape-tail zero root t t' k (inl e) = inl e
  HasShape-tail zero root t t' k (inr s) = inr (s.0, k s.1)
  HasShape-tail (suc d) root t t' k s = (s.0, s.1, k s.2)

module _ {ℓ} {A : Type ℓ} where
  pub record Represents (v : Vector A) (xs : List A) : Type ℓ where
    pub count : v.cnt ≡ length xs
    pub contents : xs ≡ flat (suc v.depth) v.root ++ v.tail
    pub tail_fits : length v.tail ≤ 32
    pub shape : HasShape A v.depth v.root v.tail
