-- ===== src/Repair/Engine/Rejected.antt =====
-- internal/repair/engine.go: a repair that Verify turns down.
use hivekit.Common.{◌≡◌, refl, ap, ◌∙◌, List, [], ◌∷◌, Bool, true, false, not, some, if◌then◌else◌}
use hivekit.Common.Bytes.{Bytes, slice}
use hivekit.Repair.Types.{RepairAction, RepairModule, Diagnostic}
use hivekit.Repair.Log.{TransactionLog, add_entry, rollback, rollback_loop, clear}
use hivekit.Repair.Validator.{validate_repair_safe}
use hivekit.Repair.Engine.{
  EngineConfig, RepairStatus, Processed, window, apply_repair, process_with, process_action,
  process_repair, find_module, execute_loop, execute_repairs, filter_diagnostics, filtered, roll,
  simulate_loop,
}

-- What a failing Verify makes of a repair.
rejected :
    (m : RepairModule) (action : RepairAction) (b : Bytes) (log : TransactionLog) (d : Diagnostic)
    (r : Bytes × Bool)
    → r.1 ≡ true
    → m.verify r.0 d ≡ false
    → apply_repair m action d b log r ≡ record {
      status = RepairStatus.failed;
      buffer = r.0;
      log =
          add_entry d.offset
            (slice (window b d) d.offset b)
            (slice (window b d) d.offset r.0)
            d
            log;
    }
unfolding apply_repair
rejected m action b log d (b', false) done bad = cc
rejected m action b log d (b', true) done bad = rw bad refl

kept_first :
    (config : EngineConfig) (action : RepairAction) (d : Diagnostic) (ds : List Diagnostic)
    → d.repair ≡ some action
    → filtered config (some action) ≡ true
    → filter_diagnostics config (d ∷ ds) ≡ (d ∷ filter_diagnostics config ds)
unfolding filter_diagnostics
kept_first config action d ds has keep =
    ap (λ t. if t then d ∷ filter_diagnostics config ds else filter_diagnostics config ds)
      (ap (filtered config) has ∙ keep)

rejected_repair :
    (m : RepairModule) (ms : List RepairModule) (b : Bytes) (log : TransactionLog) (d : Diagnostic)
    (action : RepairAction)
    → d.repair ≡ some action
    → m.can_repair d ≡ true
    → validate_repair_safe b d ≡ true
    → m.validate b d ≡ true
    → process_repair (m ∷ ms) b log d ≡ apply_repair m action d b log (m.apply b d)
unfolding process_repair process_action process_with find_module
rejected_repair m ms b log d action has takes safe ok =
    ap (λ o. process_action (m ∷ ms) o d b log) has
    ∙ ap (λ t. process_with (if t then some m else find_module ms d) action d b log) takes
    ∙ ap
        (λ t.
          if not t
          then record { status = RepairStatus.failed; buffer = b; log = log }
          else if not (m.validate b d)
          then record { status = RepairStatus.failed; buffer = b; log = log }
          else apply_repair m action d b log (m.apply b d))
        safe
    ∙ ap
        (λ t.
          if not t
          then record { status = RepairStatus.failed; buffer = b; log = log }
          else apply_repair m action d b log (m.apply b d))
        ok

stopped :
    (ms : List RepairModule) (b : Bytes) (d : Diagnostic) (ds : List Diagnostic) (b' : Bytes)
    (old new : Bytes)
    → process_repair ms b [] d
      ≡ record { status = RepairStatus.failed; buffer = b'; log = add_entry d.offset old new d [] }
    → execute_loop ms (d ∷ ds) b [] 0 0
      ≡ roll 0 0 d
          (add_entry d.offset old new d [])
          (record { buffer = b'; rolled = 0; failed = false })
unfolding execute_loop add_entry rollback rollback_loop
stopped ms b d ds b' old new e =
    ap
      (λ (p : Processed). elim p.status [
        | RepairStatus.applied ↦ execute_loop ms ds p.buffer p.log 1 0
        | RepairStatus.skipped ↦ execute_loop ms ds p.buffer p.log 0 1
        | RepairStatus.failed ↦ roll 0 0 d p.log (rollback p.log p.buffer)
        | _ ↦ execute_loop ms ds p.buffer p.log 0 0
      ])
      e

-- When the first diagnostic, outside a dry run, passes the filter, a module takes it, it is safe
-- and valid and Apply returns, then ExecuteRepairs with a Verify that fails returns an error whose
-- rollback did not fail, and leaves the buffer as Apply left it: its entry of the log is still
-- pending, and the rollback passes over it.
pub failed_verify_keeps_change :
    (config : EngineConfig) (m : RepairModule) (ms : List RepairModule) (log : TransactionLog)
    (b : Bytes) (d : Diagnostic) (ds : List Diagnostic) (action : RepairAction)
    → config.dry_run ≡ false
    → d.repair ≡ some action
    → filtered config (some action) ≡ true
    → m.can_repair d ≡ true
    → validate_repair_safe b d ≡ true
    → m.validate b d ≡ true
    → (m.apply b d).1 ≡ true
    → m.verify (m.apply b d).0 d ≡ false
    → ((execute_repairs config (m ∷ ms) log b (d ∷ ds)).error ≡ some (d, false))
      × ((execute_repairs config (m ∷ ms) log b (d ∷ ds)).buffer ≡ (m.apply b d).0)
unfolding execute_repairs clear
failed_verify_keeps_change config m ms log b d ds action wet has keep takes safe ok done bad =
    let old = slice (window b d) d.offset b in
    let new = slice (window b d) d.offset (m.apply b d).0 in
    let run : execute_repairs config (m ∷ ms) log b (d ∷ ds)
        ≡ roll 0 0 d (add_entry d.offset old new d [])
            (record { buffer = (m.apply b d).0; rolled = 0; failed = false }) =
      ap
        (λ t.
          if t
          then simulate_loop (m ∷ ms) (filter_diagnostics config (d ∷ ds)) b log 0 0 0
          else execute_loop (m ∷ ms) (filter_diagnostics config (d ∷ ds)) b [] 0 0)
        wet
      ∙ ap (λ l. execute_loop (m ∷ ms) l b [] 0 0) (kept_first config action d ds has keep)
      ∙ stopped (m ∷ ms) b d (filter_diagnostics config ds) (m.apply b d).0 old new (
          rejected_repair m ms b [] d action has takes safe ok
          ∙ rejected m action b [] d (m.apply b d) done bad) in
    (ap (λ r. r.error) run, ap (λ r. r.buffer) run)
