-- ===== src/HashMap/Positions.antt =====
-- The digits that a bitmap of src/vm/seq.c stands for, in the order of the children.
use saurus.Base.{
  ℕ, zero, suc, ◌+◌, ◌≤◌, ◌<◌, ◌≡◌, ◌≢◌, refl, ap, ◌∙◌, Bool, true, false, List, [], ◌∷◌, length,
  set, fetch, ok, All, All-map, arith,
}
use saurus.HashMap.BitLaws.{bit, rank}

abbrev pub positions : ℕ → List Bool → List ℕ
positions o [] = []
positions o (true ∷ b) = o ∷ positions (suc o) b
positions o (false ∷ b) = positions (suc o) b

module _ {ℓ} {A : Type ℓ} where
  abbrev pub insert_at : List A → ℕ → A → List A
  insert_at xs zero a = a ∷ xs
  insert_at [] (suc i) a = a ∷ []
  insert_at (x ∷ xs) (suc i) a = x ∷ insert_at xs i a

  abbrev pub remove_at : List A → ℕ → List A
  remove_at [] i = []
  remove_at (x ∷ xs) zero = xs
  remove_at (x ∷ xs) (suc i) = x ∷ remove_at xs i

-- No number stands twice.
abbrev pub Distinct : List ℕ → Type 0
Distinct [] = Unit
Distinct (p ∷ ps) = All (λ q. p ≢ q) ps × Distinct ps

pub fetch-positions :
    (o : ℕ) (b : List Bool) (m : ℕ) → bit b m ≡ true → fetch (positions o b) (rank b m) ≡ ok (o + m)
fetch-positions o [] m h = absurd (cc)
fetch-positions o (true ∷ b) zero h = ap ok (omega arith)
fetch-positions o (false ∷ b) zero h = absurd (cc)
fetch-positions o (true ∷ b) (suc m) h = fetch-positions (suc o) b m h ∙ ap ok (omega arith)
fetch-positions o (false ∷ b) (suc m) h = fetch-positions (suc o) b m h ∙ ap ok (omega arith)

pub positions-set-true :
    (o : ℕ) (b : List Bool) (m p : ℕ)
    → bit b m ≡ false
    → m < length b
    → p ≡ o + m
    → positions o (set b m true) ≡ insert_at (positions o b) (rank b m) p
positions-set-true o [] m p h k e = absurd (omega arith)
positions-set-true o (true ∷ b) zero p h k e = absurd (cc)
positions-set-true o (false ∷ b) zero p h k e = ap (λ t. t ∷ positions (suc o) b) (omega arith)
positions-set-true o (true ∷ b) (suc m) p h k e =
    ap (λ t. o ∷ t) (positions-set-true (suc o) b m p h (omega arith) (omega arith))
positions-set-true o (false ∷ b) (suc m) p h k e =
    positions-set-true (suc o) b m p h (omega arith) (omega arith)

pub positions-set-false :
    (o : ℕ) (b : List Bool) (m : ℕ)
    → bit b m ≡ true
    → positions o (set b m false) ≡ remove_at (positions o b) (rank b m)
positions-set-false o [] m h = absurd (cc)
positions-set-false o (true ∷ b) zero h = refl
positions-set-false o (false ∷ b) zero h = absurd (cc)
positions-set-false o (true ∷ b) (suc m) h = ap (λ t. o ∷ t) (positions-set-false (suc o) b m h)
positions-set-false o (false ∷ b) (suc m) h = positions-set-false (suc o) b m h

pub positions-range :
    (o : ℕ) (b : List Bool) → All (λ q. (o ≤ q) × (q < o + length b)) (positions o b)
positions-range o [] = tt
positions-range o (true ∷ b) = (
  omega arith,
  All-map _ _ (λ q h. omega arith) (positions (suc o) b) (positions-range (suc o) b),
)
positions-range o (false ∷ b) =
    All-map _ _ (λ q h. omega arith) (positions (suc o) b) (positions-range (suc o) b)

pub positions-Distinct : (o : ℕ) (b : List Bool) → Distinct (positions o b)
positions-Distinct o [] = tt
positions-Distinct o (true ∷ b) = (
  All-map _ _ (λ q h. omega arith) (positions (suc o) b) (positions-range (suc o) b),
  positions-Distinct (suc o) b,
)
positions-Distinct o (false ∷ b) = positions-Distinct (suc o) b

pub positions-absent :
    (o : ℕ) (b : List Bool) (m p : ℕ)
    → bit b m ≡ false
    → p ≡ o + m
    → All (λ q. p ≢ q) (positions o b)
positions-absent o [] m p h e = tt
positions-absent o (true ∷ b) zero p h e = absurd (cc)
positions-absent o (false ∷ b) zero p h e =
    All-map _ _ (λ q r. omega arith) (positions (suc o) b) (positions-range (suc o) b)
positions-absent o (true ∷ b) (suc m) p h e =
    (omega arith, positions-absent (suc o) b m p h (omega arith))
positions-absent o (false ∷ b) (suc m) p h e = positions-absent (suc o) b m p h (omega arith)
