-- ===== src/Format/Consts.antt =====
-- The constants of internal/format/consts.go, the errors of errors.go, and bytes.Equal.
use hivekit.Common.{◌≡◌, refl, arith, ℕ, ◌*◌, [], ◌∷◌, Bool, true, false, ◌==◌, ◌&&◌}
use hivekit.Common.Bytes.{Bytes}

-- The sentinel errors, and one constructor for each error that a call builds in place.
pub data Error : Type 0 where
  signature_mismatch truncated free_cell not_found unsupported : Error
  bounds_check sanity_limit integer_overflow : Error
  list_bounds zero_length outside_hbin too_small invalid_size invalid_signature : Error
  db_truncated db_invalid_signature empty_data block_too_big data_too_large short_buffer : Error
  bad_block_count list_too_small no_space blocklist_truncated size_mismatch : Error

abbrev pub regf_signature : Bytes
regf_signature = b'r' ∷ b'e' ∷ b'g' ∷ b'f' ∷ []

abbrev pub hbin_signature : Bytes
hbin_signature = b'h' ∷ b'b' ∷ b'i' ∷ b'n' ∷ []

abbrev pub nk_signature : Bytes
nk_signature = b'n' ∷ b'k' ∷ []

abbrev pub vk_signature : Bytes
vk_signature = b'v' ∷ b'k' ∷ []

abbrev pub lf_signature : Bytes
lf_signature = b'l' ∷ b'f' ∷ []

abbrev pub lh_signature : Bytes
lh_signature = b'l' ∷ b'h' ∷ []

abbrev pub li_signature : Bytes
li_signature = b'l' ∷ b'i' ∷ []

abbrev pub ri_signature : Bytes
ri_signature = b'r' ∷ b'i' ∷ []

abbrev sk_signature : Bytes
sk_signature = b's' ∷ b'k' ∷ []

abbrev db_signature : Bytes
db_signature = b'd' ∷ b'b' ∷ []

abbrev pub db_header_size : ℕ
db_header_size = 0x0C

abbrev pub db_min_block_count : ℕ
db_min_block_count = 2

abbrev pub db_max_block_count : ℕ
db_max_block_count = 65535

abbrev pub db_block_padding : ℕ
db_block_padding = 4

abbrev pub header_size : ℕ
header_size = 4096

abbrev pub hbin_header_size : ℕ
hbin_header_size = 0x20

abbrev pub hbin_alignment : ℕ
hbin_alignment = 0x1000

abbrev pub cell_header_size : ℕ
cell_header_size = 4

abbrev pub invalid_offset : ℕ
invalid_offset = 0xFFFFFFFF

abbrev pub nk_min_size : ℕ
nk_min_size = 0x4C

abbrev pub vk_min_size : ℕ
vk_min_size = 0x14

abbrev pub list_header_size : ℕ
list_header_size = 4

abbrev pub max_name_len : ℕ
max_name_len = 32 * 1024

abbrev pub max_class_len : ℕ
max_class_len = 16 * 1024

abbrev pub max_subkey_count : ℕ
max_subkey_count = 1_000_000

abbrev pub max_value_count : ℕ
max_value_count = 1_000_000

abbrev pub max_value_data_len : ℕ
max_value_data_len = 256 * 1024 * 1024

abbrev pub max_ri_list_count : ℕ
max_ri_list_count = 10_000

-- bytes.Equal
unfoldable pub bytes_equal : Bytes → Bytes → Bool
bytes_equal [] [] = true
bytes_equal (x ∷ xs) (y ∷ ys) = (x == y) && bytes_equal xs ys
bytes_equal _ _ = false

abbrev pub primary_seq_offset : ℕ
primary_seq_offset = 0x004

abbrev pub secondary_seq_offset : ℕ
secondary_seq_offset = 0x008

abbrev pub time_stamp_offset : ℕ
time_stamp_offset = 0x00C

abbrev pub checksum_offset : ℕ
checksum_offset = 0x1FC

abbrev pub checksum_region_len : ℕ
checksum_region_len = 508

abbrev pub checksum_dwords : ℕ
checksum_dwords = 127

abbrev pub major_version_offset : ℕ
major_version_offset = 0x014

abbrev pub minor_version_offset : ℕ
minor_version_offset = 0x018

abbrev pub data_size_offset : ℕ
data_size_offset = 0x028

abbrev pub hbin_file_offset_field : ℕ
hbin_file_offset_field = 0x04

abbrev pub hbin_size_offset : ℕ
hbin_size_offset = 0x08

abbrev pub cell_alignment_mask : ℕ
cell_alignment_mask = 7

abbrev pub hbin_alignment_mask : ℕ
hbin_alignment_mask = 4095

abbrev pub root_cell_offset : ℕ
root_cell_offset = 0x024

pub bytes_equal_self : (a : Bytes) → bytes_equal a a ≡ true
unfolding bytes_equal
bytes_equal_self [] = refl
bytes_equal_self (x ∷ a) = ground (arith, bytes_equal_self a)

pub bytes_equal-≡ : (a b : Bytes) → bytes_equal a b ≡ true → a ≡ b
unfolding bytes_equal
bytes_equal-≡ [] [] h = refl
bytes_equal-≡ [] (y ∷ b) h = cc
bytes_equal-≡ (x ∷ a) [] h = cc
bytes_equal-≡ (x ∷ a) (y ∷ b) h = ground (arith, bytes_equal-≡ a b)

pub bytes_equal_comm : (a b : Bytes) → bytes_equal a b ≡ bytes_equal b a
unfolding bytes_equal
bytes_equal_comm [] [] = refl
bytes_equal_comm [] (y ∷ b) = refl
bytes_equal_comm (x ∷ a) [] = refl
bytes_equal_comm (x ∷ a) (y ∷ b) = ground (arith, bytes_equal_comm a b)
