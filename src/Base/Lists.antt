-- ===== src/Base/Lists.antt =====
-- Lists measured and indexed by native numbers, under the library's names.
use Prim.Native.Nat.{ℕ, zero, suc, ◌+◌, ◌-◌, ◌≤◌, ◌<◌}
use mathlib.Core.Path.{◌≡◌, refl, ap, ap₂}
use mathlib.Core.List.{List, [], ◌∷◌, ◌++◌, tail, reverse, reverse_aux}
use mathlib.Core.Option.{Option, none, some}
use native.Mathlib.Omega.{arith}
use native.Mathlib.Nat

module _ {ℓ} {A : Type ℓ} where
  abbrev pub length : List A → ℕ
  length [] = 0
  length (x ∷ xs) = suc (length xs)

  abbrev pub get_elem? : List A → ℕ → Option A
  get_elem? [] i = none
  get_elem? (x ∷ xs) zero = some x
  get_elem? (x ∷ xs) (suc i) = get_elem? xs i

  -- A write out of bounds changes nothing.
  abbrev pub set : List A → ℕ → A → List A
  set [] i v = []
  set (x ∷ xs) zero v = v ∷ xs
  set (x ∷ xs) (suc i) v = x ∷ set xs i v

  abbrev pub take : ℕ → List A → List A
  take zero xs = []
  take (suc n) [] = []
  take (suc n) (x ∷ xs) = x ∷ take n xs

  abbrev pub drop : ℕ → List A → List A
  drop zero xs = xs
  drop (suc n) [] = []
  drop (suc n) (x ∷ xs) = drop n xs

  abbrev pub concat_map {κ} : {B : Type κ} → (B → List A) → List B → List A
  concat_map f [] = []
  concat_map f (n ∷ ns) = f n ++ concat_map f ns

  pub length-append : (xs ys : List A) → length (xs ++ ys) ≡ length xs + length ys
  length-append [] ys = omega arith
  length-append (x ∷ xs) ys = omega (arith, length-append xs ys)

  pub length-set : (xs : List A) (i : ℕ) (v : A) → length (set xs i v) ≡ length xs
  length-set [] i v = refl
  length-set (x ∷ xs) zero v = refl
  length-set (x ∷ xs) (suc i) v = ap suc (length-set xs i v)

  pub take-all : (xs : List A) → take (length xs) xs ≡ xs
  take-all [] = refl
  take-all (x ∷ xs) = ap (λ ys. x ∷ ys) (take-all xs)

  pub take-length-append : (xs ys : List A) → take (length xs) (xs ++ ys) ≡ xs
  take-length-append [] ys = refl
  take-length-append (x ∷ xs) ys = ap (λ zs. x ∷ zs) (take-length-append xs ys)

  -- Lists seen from their last element.
  pub snoc : (x : A) (xs : List A) → (ys : List A) × (y : A) × (x ∷ xs ≡ ys ++ y ∷ [])
  snoc x [] = ([], x, refl)
  snoc x (y ∷ ys) = let (zs, z, e) = snoc y ys in (x ∷ zs, z, ap (λ l. x ∷ l) e)

  -- A predicate of every element.
  abbrev pub All {κ} : (A → Type κ) → List A → Type κ
  All P [] = Unit
  All P (x ∷ xs) = P x × All P xs

  pub All-append {κ} : (P : A → Type κ) (xs ys : List A) → All P xs → All P ys → All P (xs ++ ys)
  All-append P [] ys p q = q
  All-append P (x ∷ xs) ys p q = (p.0, All-append P xs ys p.1 q)

  pub All-left {κ} : (P : A → Type κ) (xs ys : List A) → All P (xs ++ ys) → All P xs
  All-left P [] ys p = tt
  All-left P (x ∷ xs) ys p = (p.0, All-left P xs ys p.1)

  pub All-right {κ} : (P : A → Type κ) (xs ys : List A) → All P (xs ++ ys) → All P ys
  All-right P [] ys p = p
  All-right P (x ∷ xs) ys p = All-right P xs ys p.1

  pub All-map {κ μ} :
      (P : A → Type κ) (Q : A → Type μ)
      → ((x : A) → P x → Q x)
      → (xs : List A) → All P xs
      → All Q xs
  All-map P Q f [] p = tt
  All-map P Q f (x ∷ xs) p = (f x p.0, All-map P Q f xs p.1)

  pub append_snoc-injective :
      (xs ys : List A) (x y : A) → xs ++ x ∷ [] ≡ ys ++ y ∷ [] → (xs ≡ ys) × (x ≡ y)
  append_snoc-injective [] [] x y e = (refl, cc)
  append_snoc-injective [] (b ∷ []) x y e = absurd (cc)
  append_snoc-injective [] (b ∷ c ∷ ys) x y e = absurd (cc)
  append_snoc-injective (a ∷ []) [] x y e = absurd (cc)
  append_snoc-injective (a ∷ c ∷ xs) [] x y e = absurd (cc)
  append_snoc-injective (a ∷ xs) (b ∷ ys) x y e =
      let (p, q) = append_snoc-injective xs ys x y (ap tail e) in (ap₂ ◌∷◌ (cc) p, q)

  -- `take (length l - 1) l` drops the last element.
  pub take-init : (l xs : List A) (y : A) → l ≡ xs ++ y ∷ [] → take (length l - 1) l ≡ xs
  take-init l xs y e =
      let n : length l - 1 ≡ length xs = omega (arith, ap length e, length-append xs (y ∷ [])) in
      rw (n, e) (take-length-append xs (y ∷ []))

  pub set-append_left :
      (xs ys : List A) (i : ℕ) (v : A) → i < length xs → set (xs ++ ys) i v ≡ set xs i v ++ ys
  set-append_left [] ys i v h = absurd (omega arith)
  set-append_left (x ∷ xs) ys zero v h = refl
  set-append_left (x ∷ xs) ys (suc i) v h =
      ap (λ l. x ∷ l) (set-append_left xs ys i v (omega arith))

  pub set-append_right :
      (xs ys : List A) (i : ℕ) (v : A) → set (xs ++ ys) (length xs + i) v ≡ xs ++ set ys i v
  set-append_right [] ys i v = rw Nat.zero-add
  set-append_right (x ∷ xs) ys i v = rw Nat.suc-add (ap (λ l. x ∷ l) (set-append_right xs ys i v))

  pub drop-drop : (m n : ℕ) (xs : List A) → drop n (drop m xs) ≡ drop (m + n) xs
  drop-drop zero n xs = rw Nat.zero-add refl
  drop-drop (suc m) zero [] = rw Nat.suc-add refl
  drop-drop (suc m) (suc n) [] = rw Nat.suc-add refl
  drop-drop (suc m) n (x ∷ xs) = rw Nat.suc-add (drop-drop m n xs)

  pub length-drop_le : (n : ℕ) (xs : List A) → length (drop n xs) ≤ length xs
  length-drop_le zero xs = omega arith
  length-drop_le (suc n) [] = omega arith
  length-drop_le (suc n) (x ∷ xs) = omega (arith, length-drop_le n xs)

  pub length-take_le : (n : ℕ) (xs : List A) → length (take n xs) ≤ n
  length-take_le zero xs = omega arith
  length-take_le (suc n) [] = omega arith
  length-take_le (suc n) (x ∷ xs) = omega (arith, length-take_le n xs)

  length-reverse_aux : (xs ys : List A) → length (reverse_aux xs ys) ≡ length xs + length ys
  length-reverse_aux [] ys = omega arith
  length-reverse_aux (x ∷ xs) ys = omega (arith, length-reverse_aux xs (x ∷ ys))

  pub length-reverse : (xs : List A) → length (reverse xs) ≡ length xs
  length-reverse xs = omega (arith, length-reverse_aux xs [])
