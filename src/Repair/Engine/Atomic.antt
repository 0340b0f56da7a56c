-- ===== src/Repair/Engine/Atomic.antt =====
-- What a run of the engine leaves of the buffer.
use hivekit.Common.{
  ℕ, ◌+◌, ◌^◌, ◌<◌, ◌≡◌, if◌then◌else◌, refl, sym, ap, subst, ◌∙◌, List, [], ◌∷◌, All, Bool, false,
  none, some, length,
}
use mathlib.Core.Option.{get_or}
use hivekit.Common.Bytes.{Bytes}
use hivekit.Repair.Types.{RepairModule, Diagnostic}
use hivekit.Repair.Log.{TransactionLog, rollback, rollback_loop, clear}
use hivekit.Repair.Log.Rollback.{SameOutside}
use hivekit.Repair.Engine.{
  EngineConfig, EngineResult, RepairStatus, process_repair, execute_loop, execute_repairs,
  filter_diagnostics, roll, simulate_loop,
}
use hivekit.Repair.Engine.Undo.{
  size_of, IsLocal, Undoes, FailsWell, Good, IsGood, process_action-Good,
}

-- What a run that ends in an error leaves.
abbrev Atomic : Bytes → EngineResult → Type 0
Atomic orig r =
    (d : Diagnostic) (rf : Bool)
    → r.error ≡ some (d, rf)
    → (rf ≡ false) × SameOutside d.offset (size_of d) orig r.buffer

-- The loop goes on, or stops, by the status: what holds of the three ways on holds of the result.
by_status :
    (P : EngineResult → Type 0) (orig : Bytes) (ho : length orig < 2 ^ 63) (d : Diagnostic)
    (s : RepairStatus) (b : Bytes) (log : TransactionLog)
    (on_applied on_skipped on_failed other : EngineResult)
    → Good orig ho d s b log
    → (Undoes log orig b → P on_applied)
    → (Undoes log orig b → P on_skipped)
    → (FailsWell orig ho d log b → P on_failed)
    → P (elim s [
      | RepairStatus.applied ↦ on_applied
      | RepairStatus.skipped ↦ on_skipped
      | RepairStatus.failed ↦ on_failed
      | _ ↦ other
    ])
by_status P orig ho d RepairStatus.applied b log ra rs rf ro g ka ks kf = ka g
by_status P orig ho d RepairStatus.skipped b log ra rs rf ro g ka ks kf = ks g
by_status P orig ho d RepairStatus.failed b log ra rs rf ro g ka ks kf = kf g
by_status P orig ho d RepairStatus.pending b log ra rs rf ro g ka ks kf = absurd g
by_status P orig ho d RepairStatus.rolled_back b log ra rs rf ro g ka ks kf = absurd g

-- Induction over the loop: a property of the results holds if it holds of the two ways to end.
loop_induction :
    (P : EngineResult → Type 0) (orig : Bytes) (ms : List RepairModule) (ds : List Diagnostic)
    (b : Bytes) (log : TransactionLog) (n k : ℕ) (ho : length orig < 2 ^ 63)
    → All IsLocal ms
    → ((b : Bytes) (log : TransactionLog) (n k : ℕ)
        → Undoes log orig b
        → P (execute_loop ms [] b log n k))
    → ((d : Diagnostic) (b : Bytes) (log : TransactionLog) (n k : ℕ)
        → FailsWell orig ho d log b
        → P (roll n k d log (rollback log b)))
    → Undoes log orig b
    → P (execute_loop ms ds b log n k)
unfolding execute_loop process_repair
loop_induction P orig ms [] b log n k ho local ends stops u = ends b log n k u
loop_induction P orig ms (d ∷ ds) b log n k ho local ends stops u =
    let p = process_repair ms b log d in
    let good : IsGood orig ho d p = process_action-Good orig ho d ms d.repair b log local u in
    by_status P orig ho d p.status p.buffer p.log (execute_loop ms ds p.buffer p.log (n + 1) k)
      (execute_loop ms ds p.buffer p.log n (k + 1)) (roll n k d p.log (rollback p.log p.buffer))
      (execute_loop ms ds p.buffer p.log n k) good
      (loop_induction P orig ms ds p.buffer p.log (n + 1) k ho local ends stops)
      (loop_induction P orig ms ds p.buffer p.log n (k + 1) ho local ends stops)
      (stops d p.buffer p.log n k)

start : (b : Bytes) → Undoes [] b b
unfolding rollback rollback_loop
start b = record { restores = refl; fits = tt; len = refl }

rolled-Atomic :
    (orig : Bytes) (ho : length orig < 2 ^ 63) (d : Diagnostic) (b : Bytes) (log : TransactionLog)
    (n k : ℕ)
    → FailsWell orig ho d log b
    → Atomic orig (roll n k d log (rollback log b))
rolled-Atomic orig ho d b log n k (ok, same) d' rf h =
    let e : d ≡ d' = ap (λ o. (get_or {A = Diagnostic × Bool} o (d, rf)).0) h in
    let f : (rollback log b).failed ≡ rf =
      ap (λ o. (get_or {A = Diagnostic × Bool} o (d, rf)).1) h in
    (sym f ∙ ok, subst (λ x. SameOutside x.offset (size_of x) orig (rollback log b).buffer) e same)

-- The results of both ways to end have the log's way back.
abbrev Undoable : Bytes → EngineResult → Type 0
Undoable orig r = r.error ≡ none → (rollback r.log r.buffer).buffer ≡ orig

wet_run :
    (config : EngineConfig) (ms : List RepairModule) (log : TransactionLog) (b : Bytes)
    (ds : List Diagnostic)
    → config.dry_run ≡ false
    → execute_loop ms (filter_diagnostics config ds) b [] 0 0 ≡ execute_repairs config ms log b ds
unfolding execute_repairs clear
wet_run config ms log b ds wet =
    let f = filter_diagnostics config ds in
    sym (ap (λ t. if t then simulate_loop ms f b log 0 0 0 else execute_loop ms f b [] 0 0) wet)

-- When ExecuteRepairs, on a buffer of less than 2^63 bytes, not as a dry run and with modules whose
-- Apply writes only inside the window of its diagnostic, returns an error, then its rollback ran to
-- the end, and the buffer has its first length and, outside the window of the diagnostic that
-- failed, its first bytes.
pub execute_repairs-atomic :
    (config : EngineConfig) (ms : List RepairModule) (log : TransactionLog) (b : Bytes)
    (ds : List Diagnostic) (d : Diagnostic) (rf : Bool)
    → config.dry_run ≡ false
    → All IsLocal ms
    → length b < 2 ^ 63
    → (execute_repairs config ms log b ds).error ≡ some (d, rf)
    → (rf ≡ false) × SameOutside d.offset (size_of d) b (execute_repairs config ms log b ds).buffer
unfolding execute_loop
execute_repairs-atomic config ms log b ds d rf wet local hb =
    let f = filter_diagnostics config ds in
    subst (Atomic b) (wet_run config ms log b ds wet)
      (loop_induction (Atomic b) b ms f b [] 0 0 hb local (λ b' l n k u d' rf' h. cc)
        (rolled-Atomic b hb) (start b))
      d rf

-- When ExecuteRepairs returns no error, on a buffer of less than 2^63 bytes, not as a dry run and
-- with modules whose Apply writes only inside the window of its diagnostic, a rollback by the log
-- that it leaves gives back the first buffer, whole.
pub execute_repairs-undoable :
    (config : EngineConfig) (ms : List RepairModule) (log : TransactionLog) (b : Bytes)
    (ds : List Diagnostic)
    → config.dry_run ≡ false
    → All IsLocal ms
    → length b < 2 ^ 63
    → (execute_repairs config ms log b ds).error ≡ none
    → (rollback
        (execute_repairs config ms log b ds).log
        (execute_repairs config ms log b ds).buffer).buffer
      ≡ b
unfolding execute_loop
execute_repairs-undoable config ms log b ds wet local hb =
    let f = filter_diagnostics config ds in
    subst (Undoable b) (wet_run config ms log b ds wet) (
      loop_induction (Undoable b) b ms f b [] 0 0 hb local (λ b' l n k u h. u.restores)
        (λ d b' l n k w h. cc) (start b))
