-- ===== src/Bigdata/Writer/Need.antt =====
-- The total of calculateTotalNeed: what the cells of the value come to, without overflow.
use hivekit.Common.{
  ℕ, zero, suc, ◌+◌, ◌-◌, ◌*◌, ◌%◌, ◌^◌, ◌≤◌, ◌<◌, ◌≡◌, ap, ap₂, ◌∙◌, arith, some, length, ltb, min,
  true, if◌then◌else◌,
}
use hivekit.Common.Bytes.{Bytes}
use hivekit.Format.Align.{align8}
use hivekit.Bigdata.{max_block_size}
use hivekit.Bigdata.Writer.{block_need, calculate_total_need}

-- The length of block `i` of `total` bytes, as Store cuts it, and the cells of `n` blocks from there.
abbrev pub block_len : ℕ → ℕ → ℕ
block_len i total = min (i * max_block_size + max_block_size) total - i * max_block_size

abbrev pub blocks_need : ℕ → ℕ → ℕ → ℕ
blocks_need zero i total = 0
blocks_need (suc n) i total = align8 (block_len i total + 4) + blocks_need n (i + 1) total

-- All cells of a value of `total` bytes in `n` blocks.
abbrev pub value_need : ℕ → ℕ → ℕ
value_need n total = align8 16 + align8 (n * 4 + 4) + blocks_need n 0 total

-- So many blocks, none of them empty.
abbrev pub BlocksOf : ℕ → ℕ → Type 0
BlocksOf n total = (total ≤ n * 16344) × (n * 16344 < total + 16344)

blocks_need-le : (n i total : ℕ) → blocks_need n i total ≤ n * 16352
blocks_need-le zero i total = omega arith
blocks_need-le (suc n) i total = omega (arith, blocks_need-le n (i + 1) total)

block_need-eq :
    (n i fuel total acc : ℕ)
    → BlocksOf (i + n) total
    → n < fuel
    → acc + blocks_need n i total < 2 ^ 32
    → block_need fuel (total - i * 16344) acc ≡ some (acc + blocks_need n i total)
unfolding block_need
block_need-eq n i zero total acc b h small = absurd (omega arith)
block_need-eq zero i (suc fuel) total acc b h small = ground arith
block_need-eq (suc n) i (suc fuel) total acc b h small =
    let left : ltb 0 (total - i * 16344) ≡ true = ground arith in
    let chunk : (if ltb max_block_size (total - i * 16344)
          then max_block_size
          else total - i * 16344)
        ≡ block_len i total =
      ground arith in
    let rest : total - i * 16344 - block_len i total ≡ total - (i + 1) * 16344 = omega arith in
    let sum : (acc + align8 (4 + block_len i total) % 2 ^ 32) % 2 ^ 32
        ≡ acc + align8 (block_len i total + 4) =
      omega arith in
    let ih =
      block_need-eq n (i + 1) fuel total (acc + align8 (block_len i total + 4))
        (omega arith, omega arith) (omega arith) (omega arith) in
    rw (left, chunk, rest, sum) (ih ∙ ap some (omega arith))

-- Up to 65,535 blocks, none of them empty, and with more fuel than blocks, calculateTotalNeed gives
-- the sum of the cells of the header, the list and the blocks as Store cuts them, and no int32
-- overflows.
pub calculate_total_need-eq :
    (fuel n : ℕ) (src : Bytes)
    → BlocksOf n (length src)
    → n ≤ 65535
    → n < fuel
    → (calculate_total_need fuel src n ≡ some (value_need n (length src)))
      × (value_need n (length src) < 2 ^ 31)
unfolding calculate_total_need
calculate_total_need-eq fuel n src b few enough =
    let bound = blocks_need-le n 0 (length src) in
    let start : (align8 16 % 2 ^ 32 + align8 (4 + n * 4) % 2 ^ 32) % 2 ^ 32
        ≡ align8 16 + align8 (n * 4 + 4) =
      omega arith in
    let e : length src ≡ length src - 0 * 16344 = omega arith in
    (
      ap₂ (block_need fuel) e start
          ∙ block_need-eq n 0 fuel (length src) (align8 16 + align8 (n * 4 + 4))
              (omega arith, omega arith) enough (omega (arith, bound)),
      omega (arith, bound),
    )
