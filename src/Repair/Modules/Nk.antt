-- ===== src/Repair/Modules/Nk.antt =====
-- internal/repair/nk.go: repairs of key records.
use hivekit.Common.{
  ℕ, ◌+◌, ◌%◌, ◌^◌, Bool, true, false, not, ◌&&◌, Option, Outcome, err, length, ltb, ◌==◌,
}
use hivekit.Common.Bytes.{Bytes, peek}
use hivekit.Format.Consts.{invalid_offset}
use hivekit.Repair.Types.{RepairType, replace, default, RepairModule, Diagnostic, Structure}
use hivekit.Repair.Modules.Base.{
  ApplyError, unsupported_type, validate_offset, put_at, apply_replace, applied_to, type_of,
  has_repair, matches, record_start_of, plausible,
}

abbrev is_nk : Structure → Bool
is_nk Structure.nk = true
is_nk _ = false

abbrev nk_type_allowed : RepairType → Option ℕ → Bool
nk_type_allowed default expected = true
nk_type_allowed replace expected = plausible expected
nk_type_allowed _ expected = false

nk_validate : Bytes → Diagnostic → Bool
unfolding validate_offset record_start_of
nk_validate buffer d =
    validate_offset buffer d.offset 4
    && ltb (record_start_of d.offset) (length buffer)
    && nk_type_allowed (type_of d.repair) d.expected

abbrev pub nk_apply_type : RepairType → Bytes → Diagnostic → Outcome ApplyError Bytes
nk_apply_type default buffer d = put_at buffer d.offset invalid_offset
nk_apply_type replace buffer d = apply_replace buffer d.offset d.expected
nk_apply_type _ buffer d = err unsupported_type

unfoldable pub nk_apply : Bytes → Diagnostic → Outcome ApplyError Bytes
unfolding put_at
nk_apply buffer d = nk_apply_type (type_of d.repair) buffer d

abbrev pub nk_expects : RepairType → ℕ → Option ℕ → Bool
nk_expects default actual expected = actual == invalid_offset
nk_expects replace actual expected = matches actual expected
nk_expects _ actual expected = false

-- The test of the signature behind the value is only best effort: it never fails the repair.
unfoldable pub nk_verify : Bytes → Diagnostic → Bool
nk_verify buffer d =
    not (ltb (length buffer) ((d.offset + 4) % 2 ^ 64))
    && nk_expects (type_of d.repair) (peek 4 buffer d.offset) d.expected

unfoldable pub nk_module : RepairModule
unfolding nk_validate nk_apply nk_verify
nk_module = record {
  can_repair = λ d. is_nk d.structure && has_repair d.repair;
  validate = nk_validate;
  apply = λ buffer d. applied_to buffer (nk_apply buffer d);
  verify = nk_verify;
}
