-- ===== src/Repair/Modules/Base.antt =====
-- internal/repair/module.go: what the modules share. The checks return whether there is no error, and
-- `d.Expected.(uint32)` is the diagnostic's `expected`: `none` for nil and for any other type.
use hivekit.Common.{
  ℕ, ◌+◌, ◌-◌, ◌*◌, ◌/◌, ◌%◌, ◌^◌, Bool, true, false, not, ◌&&◌, Option, none, some, Outcome, ok,
  err, panic, length, ltb, leb, ◌==◌, if◌then◌else◌,
}
use hivekit.Common.Bytes.{Bytes, poke, le_bytes}
use hivekit.Format.Consts.{
  invalid_offset, header_size, hbin_header_size, hbin_alignment, cell_header_size,
}
use hivekit.Repair.Types.{RepairType, RepairAction}

-- Whether ValidateOffset returns no error; the sum is that of a uint64.
unfoldable pub validate_offset : Bytes → ℕ → ℕ → Bool
validate_offset buffer offset size = not (ltb (length buffer) ((offset + size) % 2 ^ 64))

-- The errors of Apply: a repair type that the module does not support, or an Expected of the wrong type.
pub data ApplyError : Type 0 where
  unsupported_type not_uint32 : ApplyError

-- binary.LittleEndian.PutUint32(data[off:], v)
unfoldable pub put_at : Bytes → ℕ → ℕ → Outcome ApplyError Bytes
put_at buffer off v =
    if leb (off + 4) (length buffer) then ok (poke (le_bytes 4 v) off buffer) else panic

-- applyReplaceRepair, the same in every module.
abbrev pub apply_replace : Bytes → ℕ → Option ℕ → Outcome ApplyError Bytes
apply_replace buffer off none = err not_uint32
apply_replace buffer off (some v) = put_at buffer off v

-- What the engine sees of an Apply: the buffer, and whether there was no error.
abbrev pub applied_to : Bytes → Outcome ApplyError Bytes → Bytes × Bool
applied_to buffer (ok buffer') = (buffer', true)
applied_to buffer (err _) = (buffer, false)
applied_to buffer panic = (buffer, false)

-- The repair type of a diagnostic, where CanRepair has seen that there is a repair.
abbrev pub type_of : Option RepairAction → RepairType
type_of none = RepairType.default
type_of (some action) = action.type

abbrev pub has_repair : Option RepairAction → Bool
has_repair none = false
has_repair (some action) = true

abbrev pub matches : ℕ → Option ℕ → Bool
matches actual none = false
matches actual (some expected) = actual == expected

-- The start of the record around a field, as nk.go and vk.go compute it: 0 in front of the first cell
-- and inside a bin's header.
unfoldable pub record_start_of : ℕ → ℕ
record_start_of field_offset =
    let relative_to_bin = (field_offset - header_size) % hbin_alignment in
    let cell_start = (relative_to_bin - hbin_header_size) / 8 * 8 in
    if ltb field_offset (header_size + hbin_header_size + cell_header_size)
    then 0
    else if ltb relative_to_bin hbin_header_size
    then 0
    else (header_size
        + (field_offset - header_size) / hbin_alignment * hbin_alignment
        + hbin_header_size
        + cell_start
        + cell_header_size)
      % 2 ^ 64

-- A reference is implausible between 1 and the first bin.
abbrev pub plausible : Option ℕ → Bool
plausible none = false
plausible (some v) = not (not (v == invalid_offset) && ltb 0 v && ltb v 0x1000)
