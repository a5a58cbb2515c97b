-- ===== src/HashMap/Inner.antt =====
-- The two kinds of inner nodes of src/vm/seq.c find through the child at the hash's digit.
use saurus.Base.{
  ℕ, zero, suc, ◌*◌, ◌<◌, ◌≡◌, refl, ap, sym, ◌∙◌, Bool, true, List, Bool-cases, inl, inr, ok,
  fetch, arith,
}
use saurus.HashMap.Bits.{all_ones, digit, replicate}
use saurus.HashMap.Digits.{digit-lt, mask-digit}
use saurus.HashMap.BitLaws.{bit, rank, has_bit-bit, idx_node_index-rank}
use saurus.HashMap.Positions.{positions, fetch-positions, positions-Distinct, positions-absent}
use saurus.HashMap.Trie.{IsTrie, seek, seek-absent, find_at-seek}
use saurus.HashMap.{Equality, idx_node, full_node, MapNodes, find}

pub bit-ones : (w m : ℕ) → m < w → bit (replicate w true) m ≡ true
bit-ones zero m h = absurd (omega arith)
bit-ones (suc w) zero h = refl
bit-ones (suc w) (suc m) h = bit-ones w m (omega arith)

pub rank-ones : (w m : ℕ) → m < w → rank (replicate w true) m ≡ m
rank-ones zero m h = absurd (omega arith)
rank-ones (suc w) zero h = refl
rank-ones (suc w) (suc m) h = ap suc (rank-ones w m (omega arith))

-- The digits of a full node are all of them.
pub fetch-all_ones : (m : ℕ) → m < 32 → fetch (positions 0 all_ones) m ≡ ok m
fetch-all_ones m h =
    ap (fetch (positions 0 all_ones)) (sym (rank-ones 32 m h))
    ∙ fetch-positions 0 all_ones m (bit-ones 32 m h)
    ∙ ap ok (omega arith)

module _ {ℓ} {K V : Type ℓ} (eq : Equality K V) where
  pub find-idx :
      (l : ℕ) (bitmap : List Bool) (shift hash : ℕ) (ns : MapNodes K V)
      → IsTrie eq l (idx_node bitmap shift hash ns)
      → (h : ℕ) (q : K)
      → find eq (idx_node bitmap shift hash ns) h q
        ≡ seek eq (positions 0 bitmap) ns (digit h (5 * l)) h q
  unfolding find
  find-idx l bitmap shift hash ns t h q =
      let m : ℕ = digit h (5 * l) in
      let m_lt = digit-lt h (5 * l) in
      rw (t.1, mask-digit h l t.0, has_bit-bit bitmap m t.3 m_lt)
        (elim (Bool-cases (bit bitmap m)) [
          | inl b ↦
              rw (b, idx_node_index-rank bitmap m t.3 m_lt)
                (find_at-seek eq (positions 0 bitmap) ns l hash (rank bitmap m) m h q t.5
                  (positions-Distinct 0 bitmap)
                  (fetch-positions 0 bitmap m b ∙ ap ok (omega arith)))
          | inr b ↦ rw b (
              sym (
                seek-absent eq (positions 0 bitmap) ns m h q
                  (positions-absent 0 bitmap m m b (omega arith))))
        ])

  pub find-full :
      (l shift hash : ℕ) (ns : MapNodes K V)
      → IsTrie eq l (full_node shift hash ns)
      → (h : ℕ) (q : K)
      → find eq (full_node shift hash ns) h q
        ≡ seek eq (positions 0 all_ones) ns (digit h (5 * l)) h q
  unfolding find
  find-full l shift hash ns t h q =
      let m : ℕ = digit h (5 * l) in
      rw (t.1, mask-digit h l t.0)
        (find_at-seek eq (positions 0 all_ones) ns l hash m m h q t.3
          (positions-Distinct 0 all_ones) (fetch-all_ones m (digit-lt h (5 * l))))
