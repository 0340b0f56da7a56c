-- ===== src/Format/Align.antt =====
-- internal/format/align.go: rounding up to cells and to pages. An int32 is its bit pattern, and an
-- argument of type int is not negative. To clear the lowest bits of a number is to take the multiple
-- of their power of two below it.
use hivekit.Common.{ℕ, ◌+◌, ◌*◌, ◌/◌, ◌%◌, ◌^◌, ◌≤◌, ◌<◌, ◌≡◌, arith}
use hivekit.Format.Consts.{cell_alignment_mask, hbin_alignment_mask}

-- n &^ mask, of the mask of a power of two.
abbrev clear_bits : ℕ → ℕ → ℕ
clear_bits mask n = n / (mask + 1) * (mask + 1)

abbrev pub align8 : ℕ → ℕ
align8 n = clear_bits cell_alignment_mask (n + cell_alignment_mask)

abbrev align_hbin : ℕ → ℕ
align_hbin n = clear_bits hbin_alignment_mask (n + hbin_alignment_mask)

abbrev align16_mask : ℕ
align16_mask = 15

abbrev align16 : ℕ → ℕ
align16 n = clear_bits align16_mask (n + align16_mask)

unfoldable pub align8_i32 : ℕ → ℕ
align8_i32 n = clear_bits cell_alignment_mask ((n + cell_alignment_mask) % 2 ^ 32)

unfoldable pub align_hbin_i32 : ℕ → ℕ
align_hbin_i32 n = clear_bits hbin_alignment_mask ((n + hbin_alignment_mask) % 2 ^ 32)

-- The least multiple of eight from `n` on, where an int32 holds it.
pub align8_i32_lem :
    (n : ℕ) → n + 7 < 2 ^ 31 → (align8_i32 n % 8 ≡ 0) × (n ≤ align8_i32 n) × (align8_i32 n < n + 8)
unfolding align8_i32
align8_i32_lem n h = (omega arith, omega arith, omega arith)

pub align_hbin_i32_lem :
    (n : ℕ)
    → n + 4095 < 2 ^ 31
    → (align_hbin_i32 n % 4096 ≡ 0) × (n ≤ align_hbin_i32 n) × (align_hbin_i32 n < n + 4096)
unfolding align_hbin_i32
align_hbin_i32_lem n h = (omega arith, omega arith, omega arith)
