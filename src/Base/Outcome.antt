-- ===== src/Base/Outcome.antt =====
-- How a C function of the virtual machine ends: with a value, through `su_error` (a `longjmp` out of
-- the call), or in undefined behaviour (an access out of range, a signed overflow, a failed `assert`).
use Prim.Native.Nat.{ℕ, zero, suc, ◌+◌, ◌^◌, ◌<◌}
use mathlib.Core.Path.{◌≡◌, refl, subst}
use mathlib.Core.Bool.{Bool, true, false}
use mathlib.Core.List.{List, [], ◌∷◌, ◌++◌}
use native.Mathlib.Omega.{arith}
use native.Mathlib.Nat
use saurus.Base.Tests.{ltb, if◌then◌else◌, lt→ltb}
use saurus.Base.Lists.{length, set}

-- The calls of `su_error` and `su_assert`, named after their messages.
pub data Error : Type 0 where
  index_out_of_bounds pop_empty_vector stack_overflow bad_argument : Error
  argument_count no_argument not_implemented no_such_key not_callable : Error
  key_not_string no_global redefined_global duplicated_key odd_pairs no_sequence : Error

pub data Run {ℓ} (A : Type ℓ) : Type ℓ where
  ok : A → Run A
  raise : Error → Run A
  fault : Run A

infixl 5 ◌>>=◌ ◌>>◌
abbrev pub ◌>>=◌ {ℓ κ} : {A : Type ℓ} {B : Type κ} → Run A → (A → Run B) → Run B
ok a >>= f = f a
raise e >>= f = raise e
fault >>= f = fault

abbrev pub ◌>>◌ {ℓ} : {B : Type ℓ} → Run (Unit {0}) → Run B → Run B
m >> k = m >>= λ _. k

-- Inversion of a bind.
pub bind-ok {ℓ κ} :
    {A : Type ℓ} {B : Type κ} (x : Run A) (f : A → Run B) (b : B)
    → (x >>= f) ≡ ok b
    → (a : A) × (x ≡ ok a) × (f a ≡ ok b)
bind-ok (ok a) f b e = (a, refl, e)
bind-ok (raise err) f b e = absurd (cc)
bind-ok fault f b e = absurd (cc)

-- What holds of the result if a call ends.
pub record Ensures {ℓ κ} {A : Type ℓ} (P : A → Type κ) (r : Run A) : Type (ℓ ⊔ κ) where
  pub holds : (a : A) → r ≡ ok a → P a

pub ok-Ensures {ℓ κ} : {A : Type ℓ} (P : A → Type κ) (a : A) → P a → Ensures P (ok a)
ok-Ensures P a p = record { holds = λ b e. subst P (cc) p }

pub raise-Ensures {ℓ κ} : {A : Type ℓ} (P : A → Type κ) (err : Error) → Ensures P (raise err)
raise-Ensures P err = record { holds = λ b e. absurd (cc) }

pub bind-Ensures {ℓ κ μ} :
    {A : Type ℓ} {B : Type κ} (P : B → Type μ) (x : Run A) (f : A → Run B)
    → ((a : A) → x ≡ ok a → Ensures P (f a))
    → Ensures P (x >>= f)
bind-Ensures P x f h = record {
  holds = λ b e. let (a, run, rest) = bind-ok x f b e in (h a run).holds b rest;
}

pub if-Ensures {ℓ κ} :
    {A : Type ℓ} (P : A → Type κ) (t : Bool) (x y : Run A)
    → (t ≡ true → Ensures P x)
    → Ensures P y
    → Ensures P (if t then x else y)
if-Ensures P true x y h k = h refl
if-Ensures P false x y h k = k

-- `assert`, and what else has to hold for the next access to be defined.
abbrev pub assert : Bool → Run (Unit {0})
assert true = ok tt
assert false = fault

pub assert-Ensures {ℓ κ} :
    {A : Type ℓ} (P : A → Type κ) (t : Bool) (x : Run A)
    → (t ≡ true → Ensures P x)
    → Ensures P (assert t >> x)
assert-Ensures P true x h = h refl
assert-Ensures P false x h = record { holds = λ b e. absurd (cc) }

-- An array read and an array write; out of range they are undefined.
module _ {ℓ} {A : Type ℓ} where
  abbrev pub fetch : List A → ℕ → Run A
  fetch [] i = fault
  fetch (x ∷ xs) zero = ok x
  fetch (x ∷ xs) (suc i) = fetch xs i

  abbrev pub store : List A → ℕ → A → Run (List A)
  store [] i v = fault
  store (x ∷ xs) zero v = ok (v ∷ xs)
  store (x ∷ xs) (suc i) v = store xs i v >>= λ ys. ok (x ∷ ys)

  -- `a[len - 1]`: at `len == 0` the index is -1.
  abbrev pub fetch_last : List A → Run A
  fetch_last [] = fault
  fetch_last (x ∷ xs) = fetch (x ∷ xs) (length xs)

  abbrev pub store_last : List A → A → Run (List A)
  store_last [] v = fault
  store_last (x ∷ xs) v = store (x ∷ xs) (length xs) v

  pub store-set : (xs : List A) (i : ℕ) (v : A) → i < length xs → store xs i v ≡ ok (set xs i v)
  store-set [] i v h = absurd (omega arith)
  store-set (x ∷ xs) zero v h = refl
  store-set (x ∷ xs) (suc i) v h = rw (store-set xs i v (omega arith))

  pub fetch-append_left : (xs ys : List A) (i : ℕ) → i < length xs → fetch (xs ++ ys) i ≡ fetch xs i
  fetch-append_left [] ys i h = absurd (omega arith)
  fetch-append_left (x ∷ xs) ys zero h = refl
  fetch-append_left (x ∷ xs) ys (suc i) h = fetch-append_left xs ys i (omega arith)

  pub fetch-append_right : (xs ys : List A) (i : ℕ) → fetch (xs ++ ys) (length xs + i) ≡ fetch ys i
  fetch-append_right [] ys i = rw Nat.zero-add
  fetch-append_right (x ∷ xs) ys i = rw Nat.suc-add (fetch-append_right xs ys i)

  pub fetch_end : (xs : List A) (x : A) → fetch (xs ++ x ∷ []) (length xs) ≡ ok x
  fetch_end [] x = refl
  fetch_end (y ∷ xs) x = fetch_end xs x

  pub fetch_last-snoc : (xs : List A) (y : A) → fetch_last (xs ++ y ∷ []) ≡ ok y
  fetch_last-snoc [] y = refl
  fetch_last-snoc (x ∷ []) y = refl
  fetch_last-snoc (x ∷ z ∷ xs) y = fetch_last-snoc (z ∷ xs) y

  pub store_last-snoc : (xs : List A) (y v : A) → store_last (xs ++ y ∷ []) v ≡ ok (xs ++ v ∷ [])
  store_last-snoc [] y v = refl
  store_last-snoc (x ∷ []) y v = refl
  store_last-snoc (x ∷ z ∷ xs) y v = rw (store_last-snoc (z ∷ xs) y v)

  pub fetch_ok : (xs : List A) (i : ℕ) → i < length xs → (x : A) × (fetch xs i ≡ ok x)
  fetch_ok [] i h = absurd (omega arith)
  fetch_ok (x ∷ xs) zero h = (x, refl)
  fetch_ok (x ∷ xs) (suc i) h = fetch_ok xs i (omega arith)

-- `int` addition: past `INT_MAX` it is undefined.
abbrev pub int_bound : ℕ
int_bound = 2 ^ 31

abbrev pub add_int : ℕ → ℕ → Run ℕ
add_int a b = if ltb (a + b) int_bound then ok (a + b) else fault

pub add_int-ok : (a b : ℕ) → a + b < int_bound → add_int a b ≡ ok (a + b)
add_int-ok a b h = rw (lt→ltb (a + b) int_bound h)

pub fetch-lt {ℓ} : {A : Type ℓ} (xs : List A) (i : ℕ) (x : A) → fetch xs i ≡ ok x → i < length xs
fetch-lt [] i x e = absurd (cc)
fetch-lt (y ∷ xs) zero x e = omega arith
fetch-lt (y ∷ xs) (suc i) x e = omega (arith, fetch-lt xs i x e)

pub ok-injective {ℓ} : {A : Type ℓ} {a b : A} → ok a ≡ ok b → a ≡ b
ok-injective e = cc
