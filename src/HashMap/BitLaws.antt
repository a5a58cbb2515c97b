-- ===== src/HashMap/BitLaws.antt =====
-- The bitmap arithmetic of the hash map of src/vm/seq.c, as reads and writes of single bits.
use saurus.Base.{
  ℕ, zero, suc, ◌<◌, ◌≡◌, refl, ap, Bool, true, false, List, [], ◌∷◌, length, set, arith,
}
use saurus.HashMap.Bits.{
  replicate, bitpos, bit_dec, bit_and, bit_or, bit_not, bit_count, is_nonzero, bits_eq, bit_of,
  all_ones, has_bit, idx_node_index,
}

abbrev pub bit : List Bool → ℕ → Bool
bit [] m = false
bit (a ∷ b) zero = a
bit (a ∷ b) (suc m) = bit b m

-- How many bits are set below `m`.
abbrev pub rank : List Bool → ℕ → ℕ
rank [] m = 0
rank (a ∷ b) zero = 0
rank (true ∷ b) (suc m) = suc (rank b m)
rank (false ∷ b) (suc m) = rank b m

and_zeros :
    (b : List Bool) (w : ℕ)
    → (is_nonzero (bit_and b (replicate w false)) ≡ false)
      × (bit_count (bit_and b (replicate w false)) ≡ 0)
unfolding bit_and is_nonzero bit_count
and_zeros [] w = (refl, refl)
and_zeros (a ∷ b) zero = (refl, refl)
and_zeros (true ∷ b) (suc w) = and_zeros b w
and_zeros (false ∷ b) (suc w) = and_zeros b w

or_zeros : (b : List Bool) (w : ℕ) → length b ≡ w → bit_or b (replicate w false) ≡ b
unfolding bit_or
or_zeros [] w h = refl
or_zeros (a ∷ b) zero h = absurd (omega arith)
or_zeros (true ∷ b) (suc w) h = ap (λ t. true ∷ t) (or_zeros b w (omega arith))
or_zeros (false ∷ b) (suc w) h = ap (λ t. false ∷ t) (or_zeros b w (omega arith))

and_ones : (b : List Bool) (w : ℕ) → length b ≡ w → bit_and b (replicate w true) ≡ b
unfolding bit_and
and_ones [] w h = refl
and_ones (a ∷ b) zero h = absurd (omega arith)
and_ones (true ∷ b) (suc w) h = ap (λ t. true ∷ t) (and_ones b w (omega arith))
and_ones (false ∷ b) (suc w) h = ap (λ t. false ∷ t) (and_ones b w (omega arith))

not_zeros : (w : ℕ) → bit_not (replicate w false) ≡ replicate w true
unfolding bit_not
not_zeros zero = refl
not_zeros (suc w) = ap (λ t. true ∷ t) (not_zeros w)

nonzero-bit :
    (b : List Bool) (w m : ℕ) → length b ≡ w → m < w → is_nonzero (bit_and b (bitpos w m)) ≡ bit b m
unfolding bit_and is_nonzero bitpos
nonzero-bit [] w m h k = absurd (omega arith)
nonzero-bit (a ∷ b) zero m h k = absurd (omega arith)
nonzero-bit (true ∷ b) (suc w) zero h k = refl
nonzero-bit (false ∷ b) (suc w) zero h k = (and_zeros b w).0
nonzero-bit (true ∷ b) (suc w) (suc m) h k = nonzero-bit b w m (omega arith) (omega arith)
nonzero-bit (false ∷ b) (suc w) (suc m) h k = nonzero-bit b w m (omega arith) (omega arith)

count-rank :
    (b : List Bool) (w m : ℕ)
    → length b ≡ w
    → m < w
    → bit_count (bit_and b (bit_dec (bitpos w m))) ≡ rank b m
unfolding bit_and bit_count bitpos bit_dec
count-rank [] w m h k = absurd (omega arith)
count-rank (a ∷ b) zero m h k = absurd (omega arith)
count-rank (true ∷ b) (suc w) zero h k = (and_zeros b w).1
count-rank (false ∷ b) (suc w) zero h k = (and_zeros b w).1
count-rank (true ∷ b) (suc w) (suc m) h k = ap suc (count-rank b w m (omega arith) (omega arith))
count-rank (false ∷ b) (suc w) (suc m) h k = count-rank b w m (omega arith) (omega arith)

or-set : (b : List Bool) (w m : ℕ) → length b ≡ w → m < w → bit_or b (bitpos w m) ≡ set b m true
unfolding bit_or bitpos
or-set [] w m h k = absurd (omega arith)
or-set (a ∷ b) zero m h k = absurd (omega arith)
or-set (true ∷ b) (suc w) zero h k = ap (λ t. true ∷ t) (or_zeros b w (omega arith))
or-set (false ∷ b) (suc w) zero h k = ap (λ t. true ∷ t) (or_zeros b w (omega arith))
or-set (true ∷ b) (suc w) (suc m) h k =
    ap (λ t. true ∷ t) (or-set b w m (omega arith) (omega arith))
or-set (false ∷ b) (suc w) (suc m) h k =
    ap (λ t. false ∷ t) (or-set b w m (omega arith) (omega arith))

and_not-set :
    (b : List Bool) (w m : ℕ)
    → length b ≡ w
    → m < w
    → bit_and b (bit_not (bitpos w m)) ≡ set b m false
unfolding bit_and bit_not bitpos
and_not-set [] w m h k = absurd (omega arith)
and_not-set (a ∷ b) zero m h k = absurd (omega arith)
and_not-set (true ∷ b) (suc w) zero h k =
    ap (λ t. false ∷ t) (rw (not_zeros w) (and_ones b w (omega arith)))
and_not-set (false ∷ b) (suc w) zero h k =
    ap (λ t. false ∷ t) (rw (not_zeros w) (and_ones b w (omega arith)))
and_not-set (true ∷ b) (suc w) (suc m) h k =
    ap (λ t. true ∷ t) (and_not-set b w m (omega arith) (omega arith))
and_not-set (false ∷ b) (suc w) (suc m) h k =
    ap (λ t. false ∷ t) (and_not-set b w m (omega arith) (omega arith))

not-set : (w m : ℕ) → m < w → bit_not (bitpos w m) ≡ set (replicate w true) m false
unfolding bit_not bitpos
not-set zero m k = absurd (omega arith)
not-set (suc w) zero k = ap (λ t. false ∷ t) (not_zeros w)
not-set (suc w) (suc m) k = ap (λ t. true ∷ t) (not-set w m (omega arith))

pub bits_eq-eq : (a b : List Bool) → bits_eq a b ≡ true → a ≡ b
unfolding bits_eq
bits_eq-eq [] [] h = refl
bits_eq-eq [] (true ∷ b) h = absurd (cc)
bits_eq-eq [] (false ∷ b) h = absurd (cc)
bits_eq-eq (true ∷ a) [] h = absurd (cc)
bits_eq-eq (false ∷ a) [] h = absurd (cc)
bits_eq-eq (true ∷ a) (true ∷ b) h = ap (λ t. true ∷ t) (bits_eq-eq a b h)
bits_eq-eq (true ∷ a) (false ∷ b) h = absurd (cc)
bits_eq-eq (false ∷ a) (true ∷ b) h = absurd (cc)
bits_eq-eq (false ∷ a) (false ∷ b) h = ap (λ t. false ∷ t) (bits_eq-eq a b h)

pub bits_eq_refl : (a : List Bool) → bits_eq a a ≡ true
unfolding bits_eq
bits_eq_refl [] = refl
bits_eq_refl (true ∷ a) = bits_eq_refl a
bits_eq_refl (false ∷ a) = bits_eq_refl a

-- The operations on whole words, at a digit.
module _ (b : List Bool) (m : ℕ) (h : length b ≡ 32) (k : m < 32) where
  pub has_bit-bit : has_bit b m ≡ bit b m
  unfolding has_bit
  has_bit-bit = nonzero-bit b 32 m h k

  pub idx_node_index-rank : idx_node_index b m ≡ rank b m
  unfolding idx_node_index
  idx_node_index-rank = count-rank b 32 m h k

  pub bit_or-set : bit_or b (bit_of m) ≡ set b m true
  bit_or-set = or-set b 32 m h k

  pub bit_and-set : bit_and b (bit_not (bit_of m)) ≡ set b m false
  bit_and-set = and_not-set b 32 m h k

pub bit_not-set : (m : ℕ) → m < 32 → bit_not (bit_of m) ≡ set all_ones m false
bit_not-set m k = not-set 32 m k
