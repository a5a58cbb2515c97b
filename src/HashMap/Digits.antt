-- ===== src/HashMap/Digits.antt =====
-- Hashes that share their low digits, as `MASK` of src/vm/seq.c reads them.
use saurus.Base.{ℕ, zero, suc, ◌*◌, ◌%◌, ◌^◌, ◌<◌, ◌≡◌, lt→ltb, ok, arith}
use saurus.HashMap.Bits.{digit, shift_right, mask}

-- The low `l` digits are the same.
abbrev pub Agree : ℕ → ℕ → ℕ → Type 0
Agree l a b = a % 32 ^ l ≡ b % 32 ^ l

pub digit-lt : (h s : ℕ) → digit h s < 32
unfolding digit
digit-lt h s = omega arith

pub mask-digit : (h l : ℕ) → l < 7 → mask h (5 * l) ≡ ok (digit h (5 * l))
unfolding mask
mask-digit h l k = rw (lt→ltb (5 * l) 32 (omega arith))

-- Hashes that share `l` digits and the next one share `l + 1`. Level 6 reads the two top bits and the
-- sign.
pub Agree-suc :
    (l a b : ℕ)
    → l < 7
    → a < 2 ^ 32
    → b < 2 ^ 32
    → Agree l a b
    → digit a (5 * l) ≡ digit b (5 * l)
    → Agree (suc l) a b
unfolding digit shift_right
Agree-suc zero a b k ha hb p q = ground arith
Agree-suc (suc zero) a b k ha hb p q = ground arith
Agree-suc (suc (suc zero)) a b k ha hb p q = ground arith
Agree-suc (suc (suc (suc zero))) a b k ha hb p q = ground arith
Agree-suc (suc (suc (suc (suc zero)))) a b k ha hb p q = ground arith
Agree-suc (suc (suc (suc (suc (suc zero))))) a b k ha hb p q = ground arith
Agree-suc (suc (suc (suc (suc (suc (suc zero)))))) a b k ha hb p q = ground arith
Agree-suc (suc (suc (suc (suc (suc (suc (suc l))))))) a b k ha hb p q = absurd (omega arith)

pub Agree-down :
    (l a b : ℕ)
    → l < 7
    → a < 2 ^ 32
    → b < 2 ^ 32
    → Agree (suc l) a b
    → Agree l a b × (digit a (5 * l) ≡ digit b (5 * l))
unfolding digit shift_right
Agree-down zero a b k ha hb p = ground arith
Agree-down (suc zero) a b k ha hb p = ground arith
Agree-down (suc (suc zero)) a b k ha hb p = ground arith
Agree-down (suc (suc (suc zero))) a b k ha hb p = ground arith
Agree-down (suc (suc (suc (suc zero)))) a b k ha hb p = ground arith
Agree-down (suc (suc (suc (suc (suc zero))))) a b k ha hb p = ground arith
Agree-down (suc (suc (suc (suc (suc (suc zero)))))) a b k ha hb p = ground arith
Agree-down (suc (suc (suc (suc (suc (suc (suc l))))))) a b k ha hb p = absurd (omega arith)

-- Seven digits are the whole hash.
pub Agree-all : (a b : ℕ) → a < 2 ^ 32 → b < 2 ^ 32 → Agree 7 a b → a ≡ b
Agree-all a b ha hb p = omega arith
