-- ===== src/HashMap/Bits.antt =====
-- The `int` arithmetic of the hash map of src/vm/seq.c, in two's complement. A hash is the number of
-- its 32 bits; a bitmap is the list of its 32 bits, lowest first.
use saurus.Base.{
  ℕ, zero, suc, ◌+◌, ◌-◌, ◌/◌, ◌%◌, ◌^◌, Bool, true, false, not, ◌&&◌, ◌||◌, List, [], ◌∷◌, ltb,
  if◌then◌else◌, Run, ok, fault,
}

-- `h >> s`, an arithmetic shift.
unfoldable pub shift_right : ℕ → ℕ → ℕ
shift_right h s = if ltb h (2 ^ 31) then h / 2 ^ s else h / 2 ^ s + (2 ^ 32 - 2 ^ (32 - s))

-- The digit of a hash that `MASK` takes at shift `s`.
unfoldable pub digit : ℕ → ℕ → ℕ
unfolding shift_right
digit h s = shift_right h s % 32

-- `MASK(h, s)`: a shift by 32 or more is undefined.
unfoldable pub mask : ℕ → ℕ → Run ℕ
mask h s = if ltb s 32 then ok (digit h s) else fault

abbrev pub replicate {ℓ} : {A : Type ℓ} → ℕ → A → List A
replicate zero a = []
replicate (suc n) a = a ∷ replicate n a

-- `1 << m` in a word of `w` bits.
unfoldable pub bitpos : ℕ → ℕ → List Bool
bitpos zero m = []
bitpos (suc w) zero = true ∷ replicate w false
bitpos (suc w) (suc m) = false ∷ bitpos w m

-- `x - 1` on the 32 bits of an int, which wraps around for the lowest int, `1 << 31`.
unfoldable pub bit_dec : List Bool → List Bool
bit_dec [] = []
bit_dec (true ∷ b) = false ∷ b
bit_dec (false ∷ b) = true ∷ bit_dec b

unfoldable pub bit_and : List Bool → List Bool → List Bool
bit_and (a ∷ as') (b ∷ bs) = (a && b) ∷ bit_and as' bs
bit_and _ _ = []

unfoldable pub bit_or : List Bool → List Bool → List Bool
bit_or (a ∷ as') (b ∷ bs) = (a || b) ∷ bit_or as' bs
bit_or _ _ = []

unfoldable pub bit_not : List Bool → List Bool
bit_not [] = []
bit_not (a ∷ as') = not a ∷ bit_not as'

-- `__builtin_popcount`
unfoldable pub bit_count : List Bool → ℕ
bit_count [] = 0
bit_count (true ∷ b) = suc (bit_count b)
bit_count (false ∷ b) = bit_count b

-- `x != 0`
unfoldable pub is_nonzero : List Bool → Bool
is_nonzero [] = false
is_nonzero (a ∷ b) = a || is_nonzero b

-- `a == b`
unfoldable pub bits_eq : List Bool → List Bool → Bool
bits_eq [] [] = true
bits_eq (true ∷ a) (true ∷ b) = bits_eq a b
bits_eq (false ∷ a) (false ∷ b) = bits_eq a b
bits_eq _ _ = false

abbrev pub word : ℕ
word = 32

-- `BITPOS`, of a digit.
abbrev pub bit_of : ℕ → List Bool
bit_of m = bitpos word m

-- `-1`
abbrev pub all_ones : List Bool
all_ones = replicate word true

-- `(bitmap & bit) != 0`
unfoldable pub has_bit : List Bool → ℕ → Bool
unfolding is_nonzero bit_and bitpos
has_bit bitmap m = is_nonzero (bit_and bitmap (bit_of m))

-- `idx_node_index`: `bit_count(bitmap & (bit - 1))`
unfoldable pub idx_node_index : List Bool → ℕ → ℕ
unfolding bit_count bit_and bit_dec bitpos
idx_node_index bitmap m = bit_count (bit_and bitmap (bit_dec (bit_of m)))
