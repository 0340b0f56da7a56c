-- ===== src/Format/Regf.antt =====
-- internal/format/regf.go: the header record of a hive.
use hivekit.Common.{ℕ, not, length, take, Outcome, ok, ◌>>◌, refuse, ltb}
use hivekit.Common.Bytes.{Bytes, peek}
use hivekit.Format.Consts.{
  Error, truncated, signature_mismatch, bytes_equal, regf_signature, header_size,
  primary_seq_offset, secondary_seq_offset, time_stamp_offset, major_version_offset,
  minor_version_offset, root_cell_offset, data_size_offset,
}

abbrev type_offset : ℕ
type_offset = 0x01C

abbrev cluster_offset : ℕ
cluster_offset = 0x02C

pub record Header : Type 0 where
  primary_sequence : ℕ
  secondary_sequence : ℕ
  pub last_write_raw : ℕ
  pub major_version : ℕ
  pub minor_version : ℕ
  pub type : ℕ
  pub root_cell_offset : ℕ
  pub hive_bins_data_size : ℕ
  clustering_factor : ℕ

abbrev pub header_of : Bytes → Header
header_of b = record {
  primary_sequence = peek 4 b primary_seq_offset;
  secondary_sequence = peek 4 b secondary_seq_offset;
  last_write_raw = peek 8 b time_stamp_offset;
  major_version = peek 4 b major_version_offset;
  minor_version = peek 4 b minor_version_offset;
  type = peek 4 b type_offset;
  root_cell_offset = peek 4 b root_cell_offset;
  hive_bins_data_size = peek 4 b data_size_offset;
  clustering_factor = peek 4 b cluster_offset;
}

unfoldable pub parse_header : Bytes → Outcome Error Header
unfolding bytes_equal
parse_header b = do
  refuse (ltb (length b) header_size) truncated
  refuse (not (bytes_equal (take 4 b) regf_signature)) signature_mismatch
  ok (header_of b)
