-- ===== src/Tests/Repairs.antt =====
-- internal/repair at concrete inputs.
use hivekit.Common.{ℕ, ◌≤◌, ◌≡◌, ◌==◌, refl, sym, arith, [], ◌∷◌, List, none, some, true, false}
use hivekit.Common.Bytes.{Bytes, poke, slice, length-poke}
use hivekit.Common.Points.{get_elem?-poke}
use hivekit.Repair.Types.{RepairType, RepairAction, RepairModule, Diagnostic, Structure}
use hivekit.Repair.Log.{rollback, rollback_loop, add_entry, mark_applied, clear}
use hivekit.Repair.Log.Rollback.{SameOutside}
use hivekit.Repair.Validator.{estimate_repair_size, validate_repair_safe, validate_alignment}
use hivekit.Repair.Engine.{
  EngineConfig, execute_repairs, execute_loop, filter_diagnostics, filtered, process_repair,
  process_action, process_with, find_module, apply_repair, window,
}
use hivekit.Repair.Engine.Undo.{IsLocal}
use hivekit.Repair.Engine.Atomic.{execute_repairs-atomic, execute_repairs-undoable}
use hivekit.Format.Consts.{bytes_equal}
use hivekit.Repair.Modules.Base.{put_at, validate_offset}
use hivekit.Repair.Modules.Regf.{regf_module, regf_apply, regf_validate}
use hivekit.Repair.Modules.Local.{regf, vk, module_of, module_of-IsLocal}
use hivekit.Repair.Modules.Verified.{validated_repair_verifies}
use hivekit.Repair.Engine.Rejected.{failed_verify_keeps_change}

-- A module that writes four bytes, and turns its repair down at offset 8.
abbrev filler : RepairModule
filler = record {
  can_repair = λ d. true;
  validate = λ b d. true;
  apply = λ b d. (poke (9 ∷ 9 ∷ 9 ∷ 9 ∷ []) d.offset b, true);
  verify = λ b d. d.offset == 4;
}

le-size : (s : Structure) → 4 ≤ estimate_repair_size s
unfolding estimate_repair_size
le-size Structure.regf = omega arith
le-size _ = omega arith

filler-IsLocal : IsLocal filler
filler-IsLocal = record {
  local = λ b d. record {
    len = sym (length-poke (9 ∷ 9 ∷ 9 ∷ 9 ∷ []) d.offset b);
    bytes =
        λ x. ground (arith, get_elem?-poke (9 ∷ 9 ∷ 9 ∷ 9 ∷ []) d.offset b x, le-size d.structure);
  };
}

abbrev default_action : RepairAction
default_action = record { type = RepairType.default; risk = 0; auto_apply = true }

abbrev diagnostic_at : ℕ → Diagnostic
diagnostic_at off = record {
  offset = off;
  structure = Structure.other;
  expected = none;
  repair = some default_action;
}

abbrev config : EngineConfig
config = record { dry_run = false; auto_only = false; max_risk = 3 }

abbrev zeroed : Bytes
zeroed = 0 ∷ 0 ∷ 0 ∷ 0 ∷ 0 ∷ 0 ∷ 0 ∷ 0 ∷ 0 ∷ 0 ∷ 0 ∷ 0 ∷ 0 ∷ 0 ∷ 0 ∷ 0 ∷ []

abbrev both : List Diagnostic
both = diagnostic_at 4 ∷ diagnostic_at 8 ∷ []

-- The first of two repairs goes through and the second does not.
execute_repairs-atomic_example :
    (false ≡ false)
    × SameOutside 8 8 zeroed (execute_repairs config (filler ∷ []) [] zeroed both).buffer
unfolding execute_repairs execute_loop filter_diagnostics filtered process_repair process_action
    process_with find_module apply_repair validate_repair_safe validate_alignment
    estimate_repair_size window slice add_entry mark_applied rollback rollback_loop clear
execute_repairs-atomic_example =
    execute_repairs-atomic config (filler ∷ []) [] zeroed both (diagnostic_at 8) false refl
      (filler-IsLocal, tt) (omega arith) refl

abbrev first_only : List Diagnostic
first_only = diagnostic_at 4 ∷ []

execute_repairs-undoable_example :
    (rollback
      (execute_repairs config (filler ∷ []) [] zeroed first_only).log
      (execute_repairs config (filler ∷ []) [] zeroed first_only).buffer).buffer
    ≡ zeroed
unfolding execute_repairs execute_loop filter_diagnostics filtered process_repair process_action
    process_with find_module apply_repair validate_repair_safe validate_alignment
    estimate_repair_size window slice add_entry mark_applied clear
execute_repairs-undoable_example =
    execute_repairs-undoable config (filler ∷ []) [] zeroed first_only refl (filler-IsLocal, tt)
      (omega arith) refl

failed_verify_keeps_change_example :
    ((execute_repairs config (filler ∷ []) [] zeroed (diagnostic_at 8 ∷ [])).error
      ≡ some (diagnostic_at 8, false))
    × ((execute_repairs config (filler ∷ []) [] zeroed (diagnostic_at 8 ∷ [])).buffer
        ≡ poke (9 ∷ 9 ∷ 9 ∷ 9 ∷ []) 8 zeroed)
unfolding filtered validate_repair_safe validate_alignment estimate_repair_size
failed_verify_keeps_change_example =
    failed_verify_keeps_change config filler [] [] zeroed (diagnostic_at 8) [] default_action refl
      refl refl refl refl refl refl refl

-- A diagnostic of the base block: the secondary sequence number is to be 7.
abbrev regf_diagnostic : Diagnostic
regf_diagnostic = record {
  offset = 8;
  structure = Structure.regf;
  expected = some 7;
  repair = some (record { type = RepairType.replace; risk = 0; auto_apply = true });
}

abbrev regf_block : Bytes
regf_block = b'r' ∷ b'e' ∷ b'g' ∷ b'f' ∷ 7 ∷ 0 ∷ 0 ∷ 0 ∷ 6 ∷ 0 ∷ 0 ∷ 0 ∷ 0 ∷ 0 ∷ 0 ∷ 0 ∷ []

validated_repair_verifies_example :
    (module_of regf).verify ((module_of regf).apply regf_block regf_diagnostic).0 regf_diagnostic
    ≡ true
unfolding module_of regf_module regf_apply put_at regf_validate validate_offset bytes_equal
validated_repair_verifies_example =
    validated_repair_verifies regf regf_block regf_diagnostic (omega arith) (omega arith) refl refl

module_of-IsLocal_example : IsLocal (module_of vk)
module_of-IsLocal_example = module_of-IsLocal vk
