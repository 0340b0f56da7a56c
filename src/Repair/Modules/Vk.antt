-- ===== src/Repair/Modules/Vk.antt =====
-- internal/repair/vk.go: repairs of value records.
use hivekit.Common.{
  ℕ, ◌+◌, ◌%◌, ◌^◌, Bool, true, false, not, ◌&&◌, Option, none, some, Outcome, err, length, ltb,
  ◌==◌,
}
use hivekit.Common.Bytes.{Bytes, peek}
use hivekit.Format.Consts.{invalid_offset}
use hivekit.Repair.Types.{
  RepairType, truncate, replace, default, RepairModule, Diagnostic, Structure,
}
use hivekit.Repair.Modules.Base.{
  ApplyError, unsupported_type, validate_offset, put_at, apply_replace, applied_to, type_of,
  has_repair, matches, record_start_of, plausible,
}

abbrev is_vk : Structure → Bool
is_vk Structure.vk = true
is_vk _ = false

abbrev vk_type_allowed : RepairType → Option ℕ → Bool
vk_type_allowed default expected = true
vk_type_allowed replace expected = plausible expected
vk_type_allowed truncate expected = true
vk_type_allowed _ expected = false

vk_validate : Bytes → Diagnostic → Bool
unfolding validate_offset record_start_of
vk_validate buffer d =
    validate_offset buffer d.offset 4
    && ltb (record_start_of d.offset) (length buffer)
    && vk_type_allowed (type_of d.repair) d.expected

-- A default repair writes what is expected, if that is a uint32, and else the invalid offset.
abbrev pub vk_default : Option ℕ → ℕ
vk_default none = invalid_offset
vk_default (some v) = v

abbrev pub vk_apply_type : RepairType → Bytes → Diagnostic → Outcome ApplyError Bytes
vk_apply_type default buffer d = put_at buffer d.offset (vk_default d.expected)
vk_apply_type replace buffer d = apply_replace buffer d.offset d.expected
vk_apply_type truncate buffer d = apply_replace buffer d.offset d.expected
vk_apply_type _ buffer d = err unsupported_type

unfoldable pub vk_apply : Bytes → Diagnostic → Outcome ApplyError Bytes
unfolding put_at
vk_apply buffer d = vk_apply_type (type_of d.repair) buffer d

abbrev pub vk_expects : RepairType → ℕ → Option ℕ → Bool
vk_expects default actual expected = actual == vk_default expected
vk_expects replace actual expected = matches actual expected
vk_expects truncate actual expected = matches actual expected
vk_expects _ actual expected = false

-- The test of the signature behind the value is only best effort: it never fails the repair.
unfoldable pub vk_verify : Bytes → Diagnostic → Bool
vk_verify buffer d =
    not (ltb (length buffer) ((d.offset + 4) % 2 ^ 64))
    && vk_expects (type_of d.repair) (peek 4 buffer d.offset) d.expected

unfoldable pub vk_module : RepairModule
unfolding vk_validate vk_apply vk_verify
vk_module = record {
  can_repair = λ d. is_vk d.structure && has_repair d.repair;
  validate = vk_validate;
  apply = λ buffer d. applied_to buffer (vk_apply buffer d);
  verify = vk_verify;
}
