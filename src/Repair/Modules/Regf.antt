-- ===== src/Repair/Modules/Regf.antt =====
-- internal/repair/regf.go: repairs of the base block.
use hivekit.Common.{
  ℕ, ◌+◌, ◌%◌, ◌^◌, Bool, true, false, not, ◌&&◌, ◌||◌, Option, none, some, Outcome, err, length,
  take, ltb, leb, ◌==◌, if◌then◌else◌,
}
use hivekit.Common.Bytes.{Bytes, peek}
use hivekit.Format.Consts.{
  header_size, regf_signature, bytes_equal, primary_seq_offset, secondary_seq_offset,
  root_cell_offset,
}
use hivekit.Repair.Types.{RepairType, replace, default, RepairModule, Diagnostic, Structure}
use hivekit.Repair.Modules.Base.{
  ApplyError, unsupported_type, validate_offset, put_at, apply_replace, applied_to, type_of,
  has_repair, matches,
}

abbrev is_regf : Structure → Bool
is_regf Structure.regf = true
is_regf _ = false

-- Only the root cell's offset has a range.
abbrev plausible_field : ℕ → Option ℕ → Bool
plausible_field offset none = false
plausible_field offset (some v) =
    if (offset == primary_seq_offset) || (offset == secondary_seq_offset)
    then true
    else not ((offset == root_cell_offset) && ltb 0 v && ltb v 0x1000)

abbrev regf_type_allowed : RepairType → ℕ → Option ℕ → Bool
regf_type_allowed replace offset expected = plausible_field offset expected
regf_type_allowed default offset expected = true
regf_type_allowed _ offset expected = false

unfoldable pub regf_validate : Bytes → Diagnostic → Bool
unfolding validate_offset bytes_equal
regf_validate buffer d =
    not (leb header_size d.offset)
    && validate_offset buffer d.offset 4
    && bytes_equal (take 4 buffer) regf_signature
    && regf_type_allowed (type_of d.repair) d.offset d.expected

-- applyDefaultRepair refuses a nil Expected and calls applyReplaceRepair.
abbrev pub regf_apply_type : RepairType → Bytes → Diagnostic → Outcome ApplyError Bytes
regf_apply_type replace buffer d = apply_replace buffer d.offset d.expected
regf_apply_type default buffer d = apply_replace buffer d.offset d.expected
regf_apply_type _ buffer d = err unsupported_type

unfoldable pub regf_apply : Bytes → Diagnostic → Outcome ApplyError Bytes
unfolding put_at
regf_apply buffer d = regf_apply_type (type_of d.repair) buffer d

abbrev pub regf_expects : RepairType → ℕ → Option ℕ → Bool
regf_expects replace actual expected = matches actual expected
regf_expects default actual expected = matches actual expected
regf_expects _ actual expected = false

unfoldable pub regf_verify : Bytes → Diagnostic → Bool
unfolding bytes_equal
regf_verify buffer d =
    not (ltb (length buffer) ((d.offset + 4) % 2 ^ 64))
    && regf_expects (type_of d.repair) (peek 4 buffer d.offset) d.expected
    && bytes_equal (take 4 buffer) regf_signature

unfoldable pub regf_module : RepairModule
unfolding regf_validate regf_apply regf_verify
regf_module = record {
  can_repair = λ d. is_regf d.structure && has_repair d.repair;
  validate = regf_validate;
  apply = λ buffer d. applied_to buffer (regf_apply buffer d);
  verify = regf_verify;
}
