-- ===== src/Repair/Modules/Hbin.antt =====
-- internal/repair/hbin.go: repairs of bin headers.
use hivekit.Common.{
  ℕ, ◌+◌, ◌-◌, ◌*◌, ◌/◌, ◌%◌, ◌^◌, Bool, true, false, not, ◌&&◌, Option, none, some, Outcome, err,
  length, ltb, ◌==◌, if◌then◌else◌,
}
use hivekit.Common.Bytes.{Bytes, peek}
use hivekit.Format.Consts.{header_size, hbin_alignment}
use hivekit.Repair.Types.{RepairType, replace, default, RepairModule, Diagnostic, Structure}
use hivekit.Repair.Modules.Base.{
  ApplyError, unsupported_type, validate_offset, put_at, apply_replace, applied_to, type_of,
  has_repair, matches,
}

abbrev is_hbin : Structure → Bool
is_hbin Structure.hbin = true
is_hbin _ = false

calculate_hbin_start : ℕ → ℕ
calculate_hbin_start field_offset =
    if ltb field_offset header_size
    then 0
    else (header_size + (field_offset - header_size) / hbin_alignment * hbin_alignment) % 2 ^ 64

-- A replaced value keeps to the pages.
abbrev aligned_value : Option ℕ → Bool
aligned_value none = false
aligned_value (some v) = not (ltb 0 v && not (v % hbin_alignment == 0))

abbrev hbin_type_allowed : RepairType → Option ℕ → Bool
hbin_type_allowed replace expected = aligned_value expected
hbin_type_allowed default expected = true
hbin_type_allowed _ expected = false

hbin_validate : Bytes → Diagnostic → Bool
unfolding validate_offset calculate_hbin_start
hbin_validate buffer d =
    validate_offset buffer d.offset 4
    && ltb (calculate_hbin_start d.offset) (length buffer)
    && hbin_type_allowed (type_of d.repair) d.expected

-- applyDefaultRepair refuses a nil Expected and calls applyReplaceRepair.
abbrev pub hbin_apply_type : RepairType → Bytes → Diagnostic → Outcome ApplyError Bytes
hbin_apply_type replace buffer d = apply_replace buffer d.offset d.expected
hbin_apply_type default buffer d = apply_replace buffer d.offset d.expected
hbin_apply_type _ buffer d = err unsupported_type

unfoldable pub hbin_apply : Bytes → Diagnostic → Outcome ApplyError Bytes
unfolding put_at
hbin_apply buffer d = hbin_apply_type (type_of d.repair) buffer d

abbrev pub hbin_expects : RepairType → ℕ → Option ℕ → Bool
hbin_expects replace actual expected = matches actual expected
hbin_expects default actual expected = true
hbin_expects _ actual expected = false

-- The test of the signature behind the value is only best effort: it never fails the repair.
unfoldable pub hbin_verify : Bytes → Diagnostic → Bool
hbin_verify buffer d =
    not (ltb (length buffer) ((d.offset + 4) % 2 ^ 64))
    && hbin_expects (type_of d.repair) (peek 4 buffer d.offset) d.expected

unfoldable pub hbin_module : RepairModule
unfolding hbin_validate hbin_apply hbin_verify
hbin_module = record {
  can_repair = λ d. is_hbin d.structure && has_repair d.repair;
  validate = hbin_validate;
  apply = λ buffer d. applied_to buffer (hbin_apply buffer d);
  verify = hbin_verify;
}
