-- ===== src/Repair/Log.antt =====
-- internal/repair/transaction.go: the log of repairs, and its rollback.
pub mod Rollback
use mathlib.Core.List.{reverse}
use hivekit.Common.{
  ℕ, suc, ◌+◌, ◌%◌, ◌^◌, List, [], ◌∷◌, ◌++◌, length, Bool, true, false, not, Option, none, some,
  ltb, if◌then◌else◌,
}
use hivekit.Common.Bytes.{Bytes, poke}
use hivekit.Repair.Types.{Diagnostic}

-- A LogEntry; its time and module name are only exported as text.
pub record LogEntry : Type 0 where
  pub offset : ℕ
  pub size : ℕ
  pub old_data : Bytes
  pub new_data : Bytes
  pub diagnostic : Diagnostic
  pub applied : Bool

abbrev pub TransactionLog : Type 0
TransactionLog = List LogEntry

unfoldable pub add_entry : ℕ → Bytes → Bytes → Diagnostic → TransactionLog → TransactionLog
add_entry offset old_data new_data d tl =
    tl
    ++ (record {
      offset = offset;
      size = length old_data;
      old_data = old_data;
      new_data = new_data;
      diagnostic = d;
      applied = false;
    }
        ∷ [])

-- `none` is the error on an empty log.
unfoldable pub mark_applied : TransactionLog → Option TransactionLog
mark_applied [] = none
mark_applied (e ∷ []) = some (record e { applied = true } ∷ [])
mark_applied (e ∷ f ∷ tl) = elim (mark_applied (f ∷ tl)) [ none ↦ none | some tl' ↦ some (e ∷ tl') ]

-- What a rollback comes to: the buffer as it leaves it, the number of entries rolled back, and
-- whether it stopped at an entry that does not fit the buffer.
pub record RolledBack : Type 0 where
  pub buffer : Bytes
  pub rolled : ℕ
  pub failed : Bool

-- The loop, over the entries from the most recent on.
unfoldable pub rollback_loop : List LogEntry → Bytes → ℕ → RolledBack
rollback_loop [] buffer rolled = record { buffer = buffer; rolled = rolled; failed = false }
rollback_loop (e ∷ es) buffer rolled =
    let skip = rollback_loop es buffer rolled in
    let restore = rollback_loop es (poke e.old_data e.offset buffer) (rolled + 1) in
    if not e.applied
    then skip
    else if ltb (length buffer) ((e.offset + e.size) % 2 ^ 64)
    then record { buffer = buffer; rolled = rolled; failed = true }
    else restore

unfoldable pub rollback : TransactionLog → Bytes → RolledBack
unfolding rollback_loop
rollback tl buffer = rollback_loop (reverse tl) buffer 0

applied_count : TransactionLog → ℕ
applied_count [] = 0
applied_count (e ∷ es) = if e.applied then suc (applied_count es) else applied_count es

total_count : TransactionLog → ℕ
total_count tl = length tl

unfoldable pub clear : TransactionLog → TransactionLog
clear tl = []
