-- ===== src/Vm/Hash.antt =====
-- `value_eq`, `murmur` and `hash_value` of src/vm/core.c.
use saurus.Base.{
  ℕ, ◌+◌, ◌*◌, ◌/◌, ◌%◌, ◌^◌, Bool, false, not, ◌&&◌, ◌||◌, List, [], ◌∷◌, length, fetch, ◌==◌,
  if◌then◌else◌, Run, ok, ◌>>=◌,
}
use saurus.HashMap.{Equality}
use saurus.Image.{word}
use saurus.Reader.{bytes_eq}
use saurus.Vm.{Value, nil, boolean, number, object}
use saurus.Vm.State.{Platform, Heap, su_nil, su_boolean, su_string, su_number}
use Prim.Native.Nat.{bit_xor}

-- `unsigned` multiplication, and `h ^= h >> r`.
abbrev pub mul32 : ℕ → ℕ → ℕ
mul32 a b = a * b % 2 ^ 32

abbrev pub murmur_m : ℕ
murmur_m = 0x5bd1e995

-- The loop over four bytes at a time, and then the `switch` over those left.
unfoldable pub murmur_loop : ℕ → List ℕ → ℕ
murmur_loop h (a ∷ b ∷ c ∷ d ∷ rest) =
    let k = mul32 (word (a ∷ b ∷ c ∷ d ∷ [])) murmur_m in
    let k' = mul32 (bit_xor k (k / 2 ^ 24)) murmur_m in
    murmur_loop (bit_xor (mul32 h murmur_m) k') rest
murmur_loop h (a ∷ b ∷ c ∷ []) =
    mul32 (bit_xor (bit_xor (bit_xor h (c * 2 ^ 16)) (b * 2 ^ 8)) a) murmur_m
murmur_loop h (a ∷ b ∷ []) = mul32 (bit_xor (bit_xor h (b * 2 ^ 8)) a) murmur_m
murmur_loop h (a ∷ []) = mul32 (bit_xor h a) murmur_m
murmur_loop h [] = h

abbrev pub murmur_end : ℕ → ℕ
murmur_end h = let h' = mul32 (bit_xor h (h / 2 ^ 13)) murmur_m in bit_xor h' (h' / 2 ^ 15)

unfoldable pub murmur : List ℕ → (seed : ℕ) → ℕ
unfolding murmur_loop
murmur key seed = murmur_end (murmur_loop (bit_xor seed (length key)) key)

module _ {N : Type 0} (platform : Platform N) where
  -- The pointers, or what else the union holds, are equal.
  abbrev pub same_bits : Value N → Value N → Bool
  same_bits nil nil = platform.unwritten_eq nil nil
  same_bits (boolean a) (boolean b) =
      (if a then b else not b) && platform.unwritten_eq (boolean a) (boolean b)
  same_bits (number a) (number b) = bytes_eq (platform.memory.bytes a) (platform.memory.bytes b)
  same_bits (object t p) (object t' p') = t == t' && p == p'
  same_bits _ _ = false

  unfoldable pub value_eq : Value N → Value N → Bool
  value_eq (number a) (number b) = platform.equal a b || same_bits (number a) (number b)
  value_eq a b = same_bits a b

  -- `OP_EQ`
  unfoldable pub value_same : Value N → Value N → Bool
  value_same (number a) (number b) = platform.equal a b
  value_same a b = same_bits a b

  abbrev pub value_equality : Equality (Value N) (Value N)
  value_equality = record { key_eq = value_eq; val_eq = value_eq }

  unfoldable pub hash_value : Heap N → Value N → Run ℕ
  unfolding murmur
  hash_value heap nil = ok su_nil
  hash_value heap (boolean b) = ok ((if b then 1 else 0) + su_boolean)
  hash_value heap (number n) = ok (murmur (platform.memory.bytes n) su_number)
  hash_value heap (object t p) =
      if t == su_string
      then (fetch heap.string_objects p >>= λ str. ok str.hash)
      else ok (murmur (platform.address t p) t)
