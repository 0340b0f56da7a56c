-- ===== src/Verify.antt =====
-- hive/verify/verify.go: the checks of the base block that the transaction protocol is about.
pub mod Bins
use Prim.Native.Nat.{bit_xor}
use hivekit.Common.{ℕ, zero, suc, ◌+◌, ◌%◌, ◌^◌, not, Outcome, ◌>>◌, refuse, length, ltb, ◌==◌}
use hivekit.Common.Bytes.{Bytes, peek}
use hivekit.Format.Consts.{header_size, primary_seq_offset, secondary_seq_offset, checksum_offset}

-- The kinds of a ValidationError.
pub data VerifyError : Type 0 where
  file_too_small sequence_mismatch checksum_mismatch : VerifyError
  bad_signature bad_major_version bad_minor_version unaligned_data_size : VerifyError
  bad_hbin_signature hbin_offset_mismatch bad_hbin_size hbin_beyond_file no_hbins : VerifyError
  cell_crosses_hbin unaligned_cell file_size_mismatch : VerifyError

-- Reads of a buffer of at least a header page: they are inside.
unfoldable pub sequence_numbers : Bytes → Outcome VerifyError (Unit {0})
sequence_numbers buffer = do
  refuse (ltb (length buffer) header_size) file_too_small
  refuse (not (peek 4 buffer primary_seq_offset == peek 4 buffer secondary_seq_offset))
      sequence_mismatch

-- The loop of Checksum: the offset goes up by four, and `n` is the number of rounds left.
unfoldable pub checksum_loop : Bytes → ℕ → ℕ → ℕ → ℕ
checksum_loop buffer i zero calculated = calculated
checksum_loop buffer i (suc n) calculated =
    checksum_loop buffer (i + 4) n (bit_xor calculated (peek 4 buffer i) % 2 ^ 32)

unfoldable pub checksum : Bytes → Outcome VerifyError (Unit {0})
unfolding checksum_loop
checksum buffer = do
  refuse (ltb (length buffer) header_size) file_too_small
  refuse (not (checksum_loop buffer 0 127 0 == peek 4 buffer checksum_offset)) checksum_mismatch
