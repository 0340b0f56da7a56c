-- ===== src/Repair/Engine.antt =====
-- internal/repair/engine.go: the engine. A loop over the modules takes the first that can repair; Go
-- ranges over a map in any order, so the order of the list is arbitrary.
pub mod Undo
pub mod Atomic
pub mod Rejected
use hivekit.Common.{
  ℕ, zero, ◌+◌, ◌-◌, ◌%◌, ◌^◌, List, [], ◌∷◌, ◌++◌, Bool, true, false, not, ◌&&◌, ◌||◌, Option,
  none, some, length, ltb, if◌then◌else◌,
}
use hivekit.Common.Bytes.{Bytes, slice}
use hivekit.Repair.Types.{RepairAction, RepairModule, Diagnostic}
use hivekit.Repair.Log.{
  LogEntry, TransactionLog, RolledBack, add_entry, mark_applied, rollback, clear,
}
use hivekit.Repair.Validator.{
  estimate_repair_size, is_field_type, validate_repair_safe, validate_structure,
}

pub record EngineConfig : Type 0 where
  pub dry_run : Bool
  pub auto_only : Bool
  pub max_risk : ℕ

pub data RepairStatus : Type 0 where
  pending applied skipped failed rolled_back : RepairStatus

-- What processRepair leaves behind: the status, the buffer and the log.
pub record Processed : Type 0 where
  pub status : RepairStatus
  pub buffer : Bytes
  pub log : TransactionLog

unfoldable pub find_module : List RepairModule → Diagnostic → Option RepairModule
find_module [] d = none
find_module (m ∷ ms) d = if m.can_repair d then some m else find_module ms d

-- The size of the window that is logged, cut at the end of the buffer.
unfoldable pub window : Bytes → Diagnostic → ℕ
window buffer d =
    let size = estimate_repair_size d.structure in
    if ltb (length buffer) ((d.offset + size) % 2 ^ 64) then length buffer - d.offset else size

-- The last step of processRepair: MarkApplied.
abbrev mark : Bytes → TransactionLog → Option TransactionLog → Processed
mark buffer log none = record { status = failed; buffer = buffer; log = log }
mark buffer log (some log') = record { status = applied; buffer = buffer; log = log' }

-- From the call of Apply on: `before` is the buffer that Apply was given.
unfoldable pub apply_repair :
    RepairModule → RepairAction → Diagnostic → Bytes → TransactionLog → Bytes × Bool → Processed
apply_repair m action d before log (buffer, false) = record {
  status = failed;
  buffer = buffer;
  log = log;
}
apply_repair m action d before log (buffer, true) =
    let old_data = slice (window before d) d.offset before in
    let new_data = slice (window before d) d.offset buffer in
    let log' = add_entry d.offset old_data new_data d log in
    if not (m.verify buffer d)
    then record { status = failed; buffer = buffer; log = log' }
    else if not (is_field_type action.type) && not (validate_structure buffer d.offset d.structure)
    then record { status = failed; buffer = buffer; log = log' }
    else mark buffer log' (mark_applied log')

-- Behind the search for a module.
unfoldable pub process_with :
    Option RepairModule → RepairAction → Diagnostic → Bytes → TransactionLog → Processed
unfolding apply_repair
process_with none action d buffer log = record { status = skipped; buffer = buffer; log = log }
process_with (some m) action d buffer log =
    if not (validate_repair_safe buffer d)
    then record { status = failed; buffer = buffer; log = log }
    else if not (m.validate buffer d)
    then record { status = failed; buffer = buffer; log = log }
    else apply_repair m action d buffer log (m.apply buffer d)

unfoldable pub process_action :
    List RepairModule → Option RepairAction → Diagnostic → Bytes → TransactionLog → Processed
unfolding process_with
process_action ms none d buffer log = record { status = skipped; buffer = buffer; log = log }
process_action ms (some action) d buffer log = process_with (find_module ms d) action d buffer log

unfoldable pub process_repair : List RepairModule → Bytes → TransactionLog → Diagnostic → Processed
process_repair ms buffer log d = process_action ms d.repair d buffer log

-- The counters of an EngineResult, its buffer and its error: the failed diagnostic, and whether the
-- rollback behind it failed too.
pub record EngineResult : Type 0 where
  pub applied : ℕ
  pub skipped : ℕ
  pub failed : ℕ
  pub rollback_count : ℕ
  pub buffer : Bytes
  pub log : TransactionLog
  pub error : Option (Diagnostic × Bool)

abbrev roll : ℕ → ℕ → Diagnostic → TransactionLog → RolledBack → EngineResult
roll n_applied n_skipped d log r = record {
  applied = n_applied;
  skipped = n_skipped;
  failed = 1;
  rollback_count = r.rolled;
  buffer = r.buffer;
  log = log;
  error = some (d, r.failed);
}

-- The loop of ExecuteRepairs over the diagnostics that are left.
unfoldable pub execute_loop :
    List RepairModule → List Diagnostic → Bytes → TransactionLog → ℕ → ℕ → EngineResult
execute_loop ms [] buffer log n_applied n_skipped = record {
  applied = n_applied;
  skipped = n_skipped;
  failed = 0;
  rollback_count = 0;
  buffer = buffer;
  log = log;
  error = none;
}
execute_loop ms (d ∷ ds) buffer log n_applied n_skipped =
    let p = process_repair ms buffer log d in
    elim p.status [
      | RepairStatus.applied ↦ execute_loop ms ds p.buffer p.log (n_applied + 1) n_skipped
      | RepairStatus.skipped ↦ execute_loop ms ds p.buffer p.log n_applied (n_skipped + 1)
      | RepairStatus.failed ↦ roll n_applied n_skipped d p.log (rollback p.log p.buffer)
      | _ ↦ execute_loop ms ds p.buffer p.log n_applied n_skipped
    ]

unfoldable pub filtered : EngineConfig → Option RepairAction → Bool
filtered config none = false
filtered config (some a) =
    not (config.auto_only && not a.auto_apply) && not (ltb config.max_risk a.risk)

unfoldable pub filter_diagnostics : EngineConfig → List Diagnostic → List Diagnostic
unfolding filtered
filter_diagnostics config [] = []
filter_diagnostics config (d ∷ ds) =
    let rest = filter_diagnostics config ds in if filtered config d.repair then d ∷ rest else rest

-- simulateRepairs: the same checks on a copy, without Apply; it counts, and changes nothing.
simulate_action : List RepairModule → Option RepairAction → Diagnostic → Bytes → RepairStatus
simulate_action ms none d buffer = skipped
simulate_action ms (some a) d buffer = elim (find_module ms d) [
  | none ↦ skipped
  | some m ↦ if validate_repair_safe buffer d && m.validate buffer d then applied else failed
]

pub simulate_loop :
    List RepairModule → List Diagnostic → Bytes → TransactionLog → ℕ → ℕ → ℕ → EngineResult
unfolding simulate_action
simulate_loop ms [] buffer log n_applied n_skipped n_failed = record {
  applied = n_applied;
  skipped = n_skipped;
  failed = n_failed;
  rollback_count = 0;
  buffer = buffer;
  log = log;
  error = none;
}
simulate_loop ms (d ∷ ds) buffer log n_applied n_skipped n_failed =
    elim (simulate_action ms d.repair d buffer) [
      | RepairStatus.applied ↦ simulate_loop ms ds buffer log (n_applied + 1) n_skipped n_failed
      | RepairStatus.skipped ↦ simulate_loop ms ds buffer log n_applied (n_skipped + 1) n_failed
      | _ ↦ simulate_loop ms ds buffer log n_applied n_skipped (n_failed + 1)
    ]

unfoldable pub execute_repairs :
    EngineConfig → List RepairModule → TransactionLog → Bytes → List Diagnostic → EngineResult
unfolding clear
execute_repairs config ms log buffer diagnostics =
    let ds = filter_diagnostics config diagnostics in
    if config.dry_run
    then simulate_loop ms ds buffer log 0 0 0
    else execute_loop ms ds buffer (clear log) 0 0
