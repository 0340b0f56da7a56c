-- ===== src/Repair/Validator.antt =====
-- internal/repair/validator.go: the checks before a repair, and those of the structure after it.
use hivekit.Common.{
  ℕ, ◌+◌, ◌-◌, ◌*◌, ◌/◌, ◌%◌, ◌^◌, Bool, true, false, not, ◌&&◌, ◌||◌, Option, none, some, length,
  take, ltb, leb, ◌==◌, if◌then◌else◌,
}
use hivekit.Common.Bytes.{Bytes, slice}
use hivekit.Format.Consts.{
  bytes_equal, regf_signature, hbin_signature, nk_signature, vk_signature, header_size,
  hbin_alignment, hbin_header_size, cell_header_size, nk_min_size, vk_min_size,
}
use hivekit.Repair.Types.{
  RepairType, replace, default, RepairAction, Structure, regf, hbin, nk, vk, cell, other,
  Diagnostic,
}

unfoldable pub estimate_repair_size : Structure → ℕ
estimate_repair_size regf = 4
estimate_repair_size hbin = 4
estimate_repair_size nk = 4
estimate_repair_size vk = 4
estimate_repair_size cell = 4
estimate_repair_size _ = 8

-- `d.Repair != nil && (d.Repair.Type == RepairDefault || d.Repair.Type == RepairReplace)`
abbrev pub is_field_type : RepairType → Bool
is_field_type default = true
is_field_type replace = true
is_field_type _ = false

abbrev is_field_repair : Option RepairAction → Bool
is_field_repair none = false
is_field_repair (some a) = is_field_type a.type

-- `d.Offset - format.HeaderSize` of a uint64.
abbrev behind_header : ℕ → ℕ
behind_header offset = (offset + 2 ^ 64 - header_size) % 2 ^ 64

-- A field's bin starts on a page by construction; the sums wrap as in the source.
abbrev hbin_start : ℕ → ℕ
hbin_start offset = (behind_header offset / hbin_alignment * hbin_alignment + header_size) % 2 ^ 64

abbrev cell_aligned : ℕ → Bool
cell_aligned offset =
    let relative = behind_header offset % hbin_alignment in
    ltb relative hbin_header_size || ((relative - hbin_header_size) % 8 == 0)

-- Whether validateAlignment returns no error.
unfoldable pub validate_alignment : Structure → Bool → ℕ → Bool
validate_alignment regf field offset = if field then ltb offset header_size else offset == 0
validate_alignment hbin field offset =
    if field
    then behind_header (hbin_start offset) % hbin_alignment == 0
    else behind_header offset % hbin_alignment == 0
validate_alignment other field offset = true
validate_alignment _ field offset = field || cell_aligned offset

-- Whether ValidateRepairSafe returns no error.
unfoldable pub validate_repair_safe : Bytes → Diagnostic → Bool
unfolding validate_alignment
validate_repair_safe buffer d =
    not (leb (length buffer) d.offset)
    && not (ltb (length buffer) ((d.offset + estimate_repair_size d.structure) % 2 ^ 64))
    && validate_alignment d.structure (is_field_repair d.repair) d.offset

-- `bytes.Equal` of a signature with the bytes at `off`, behind the test that they are there.
abbrev signature_at : Bytes → ℕ → Bytes → Bool
signature_at buffer off signature =
    leb (off + length signature) (length buffer)
    && bytes_equal (slice (length signature) off buffer) signature

-- Where the signature of a record stands: behind the cell header, outside the base block.
abbrev record_start : ℕ → ℕ
record_start offset = if leb header_size offset then offset + cell_header_size else offset

-- Whether ValidateStructureIntegrity returns no error. Offsets are below the buffer's length here.
-- `ParseHeader` behind the signature test of a header of full length cannot fail.
pub validate_structure : Bytes → ℕ → Structure → Bool
validate_structure buffer offset regf =
    (offset == 0) && leb header_size (length buffer) && bytes_equal (take 4 buffer) regf_signature
validate_structure buffer offset hbin =
    leb (offset + hbin_header_size) (length buffer)
    && bytes_equal (slice 4 offset buffer) hbin_signature
validate_structure buffer offset nk =
    leb (offset + nk_min_size) (length buffer)
    && signature_at buffer (record_start offset) nk_signature
validate_structure buffer offset vk =
    leb (offset + vk_min_size) (length buffer)
    && signature_at buffer (record_start offset) vk_signature
validate_structure buffer offset _ = true
