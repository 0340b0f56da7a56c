-- ===== src/Repair/Engine/Undo.antt =====
-- internal/repair/engine.go: the log leads back through every way out of processRepair.
use hivekit.Common.{
  ℕ, ◌+◌, ◌^◌, ◌≤◌, ◌<◌, ◌≡◌, inl, inr, refl, sym, ap, subst, ◌∙◌, arith, List, [], ◌∷◌, ◌++◌, All,
  Bool, true, false, not, ◌&&◌, Option, none, some, length, Bool-cases,
}
use hivekit.Common.Bytes.{Bytes, slice, poke, length-slice}
use hivekit.Repair.Types.{RepairAction, RepairModule, Diagnostic, Structure}
use hivekit.Repair.Log.{LogEntry, TransactionLog, add_entry, mark_applied, rollback}
use hivekit.Repair.Log.Rollback.{
  SameOutside, SameOutside-refl, Fits, poke-restore, rollback-snoc_pending, rollback-snoc_applied,
  rollback-SameOutside, rollback-not_failed,
}
use hivekit.Repair.Validator.{
  estimate_repair_size, is_field_type, validate_repair_safe, validate_structure,
}
use hivekit.Repair.Engine.{
  RepairStatus, Processed, window, apply_repair, process_with, process_action, find_module,
}

-- The window of a diagnostic: as many bytes as the validator takes its repair to write.
abbrev pub size_of : Diagnostic → ℕ
size_of d = estimate_repair_size d.structure

-- What the engine relies on of a module: Apply writes inside the window of its diagnostic.
pub record IsLocal (m : RepairModule) : Type 0 where
  pub local : (b : Bytes) (d : Diagnostic) → SameOutside d.offset (size_of d) b (m.apply b d).0

-- The log leads back from the buffer to the one that the run began with.
pub record Undoes (log : TransactionLog) (orig now : Bytes) : Type 0 where
  pub restores : (rollback log now).buffer ≡ orig
  pub fits : All (Fits (length orig)) log
  pub len : length now ≡ length orig

mark_applied-snoc :
    (log : TransactionLog) (e : LogEntry)
    → mark_applied (log ++ (e ∷ [])) ≡ some (log ++ (record e { applied = true } ∷ []))
unfolding mark_applied
mark_applied-snoc [] e = refl
mark_applied-snoc (f ∷ []) e = refl
mark_applied-snoc (f ∷ g ∷ log) e = rw (mark_applied-snoc (g ∷ log) e)

All-snoc :
    (n : ℕ) (log : TransactionLog) (e : LogEntry)
    → All (Fits n) log
    → Fits n e
    → All (Fits n) (log ++ (e ∷ []))
All-snoc n [] e h k = (k, tt)
All-snoc n (f ∷ log) e (hf, h) k = (hf, All-snoc n log e h k)

size-le : (s : Structure) → estimate_repair_size s ≤ 8
unfolding estimate_repair_size
size-le Structure.regf = omega arith
size-le _ = omega arith

-- A repair that passes the safety check lies inside the buffer, so its window is not cut.
safe_window :
    (b : Bytes) (d : Diagnostic)
    → length b < 2 ^ 63
    → validate_repair_safe b d ≡ true
    → (d.offset + size_of d ≤ length b) × (window b d ≡ size_of d)
unfolding validate_repair_safe window
safe_window b d hb h = ground (arith, size-le d.structure)

-- Logging a local change and marking it applied keeps the way back.
Undoes-snoc :
    (log : TransactionLog) (orig now now' : Bytes) (e : LogEntry)
    → length orig < 2 ^ 63
    → Undoes log orig now
    → Fits (length orig) e
    → (n : ℕ) → e.old_data ≡ slice n e.offset now
    → e.offset + n ≤ length now
    → SameOutside e.offset n now now'
    → Undoes (log ++ (record e { applied = true } ∷ [])) orig now'
Undoes-snoc log orig now now' e ho u fits n old h s = record {
  restores =
      rollback-snoc_applied log (record e { applied = true }) now' refl
        (ground (arith, u.len, s.len, fits))
      ∙ ap (λ ws. (rollback log (poke ws e.offset now')).buffer) old
      ∙ ap (λ b. (rollback log b).buffer) (poke-restore e.offset n now now' h s)
      ∙ u.restores;
  fits = All-snoc (length orig) log (record e { applied = true }) u.fits fits;
  len = sym s.len ∙ u.len;
}

-- A log with a way back still leads there from a buffer changed inside one window only.
module _ (orig : Bytes) (ho : length orig < 2 ^ 63) (d : Diagnostic) where
  abbrev pub FailsWell : TransactionLog → Bytes → Type 0
  FailsWell log b =
      ((rollback log b).failed ≡ false)
      × SameOutside d.offset (size_of d) orig (rollback log b).buffer

  fails_well :
      (log : TransactionLog) (b b' : Bytes)
      → Undoes log orig b
      → SameOutside d.offset (size_of d) b b'
      → FailsWell log b'
  fails_well log b b' u s =
      let same : length b' ≡ length orig = sym s.len ∙ u.len in
      (
        rollback-not_failed log b' (rw same ho) (rw same u.fits),
        subst (λ o. SameOutside d.offset (size_of d) o (rollback log b').buffer) u.restores
            (rollback-SameOutside d.offset (size_of d) log b b' s),
      )

  -- A pending entry is no obstacle.
  FailsWell-pending :
      (log : TransactionLog) (b b' : Bytes) (e : LogEntry)
      → e.applied ≡ false
      → Fits (length orig) e
      → Undoes log orig b
      → SameOutside d.offset (size_of d) b b'
      → FailsWell (log ++ (e ∷ [])) b'
  FailsWell-pending log b b' e pending fits u s =
      let same : length b' ≡ length orig = sym s.len ∙ u.len in
      (
        rollback-not_failed (log ++ (e ∷ [])) b' (rw same ho)
            (rw same (All-snoc (length orig) log e u.fits fits)),
        rw (rollback-snoc_pending log e b' pending) (fails_well log b b' u s).1,
      )

  -- What every way through processRepair leaves, by its status.
  abbrev pub Good : RepairStatus → Bytes → TransactionLog → Type 0
  Good RepairStatus.applied b log = Undoes log orig b
  Good RepairStatus.skipped b log = Undoes log orig b
  Good RepairStatus.failed b log = FailsWell log b
  Good _ b log = ⊥

  abbrev pub IsGood : Processed → Type 0
  IsGood p = Good p.status p.buffer p.log

  module _ (m : RepairModule) (action : RepairAction) (b : Bytes) (log : TransactionLog)
      (u : Undoes log orig b) (h : d.offset + size_of d ≤ length b)
      (w : window b d ≡ size_of d) where
    apply_repair-Good :
        (r : Bytes × Bool)
        → SameOutside d.offset (size_of d) b r.0
        → IsGood (apply_repair m action d b log r)
    unfolding apply_repair add_entry
    apply_repair-Good (b', false) s = fails_well log b b' u s
    apply_repair-Good (b', true) s =
        let size : length (slice (window b d) d.offset b) ≡ size_of d =
          rw w (length-slice (size_of d) d.offset b h) in
        let e : LogEntry = record {
          offset = d.offset;
          size = length (slice (window b d) d.offset b);
          old_data = slice (window b d) d.offset b;
          new_data = slice (window b d) d.offset b';
          diagnostic = d;
          applied = false;
        } in
        let fits : Fits (length orig) e = (omega (arith, size, u.len, h), refl) in
        let refused : FailsWell (log ++ (e ∷ [])) b' = FailsWell-pending log b b' e refl fits u s in
        let done : Undoes (log ++ (record e { applied = true } ∷ [])) orig b' =
          Undoes-snoc log orig b b' e ho u fits (size_of d) (ap (λ n. slice n d.offset b) w) h s in
        elim (Bool-cases (m.verify b' d)) [
          | inr bad ↦ rw bad refused
          | inl ok ↦
              elim (Bool-cases (
                not (is_field_type action.type)
                && not (validate_structure b' d.offset d.structure))) [
                  | inl bad ↦ rw (ok, bad) refused
                  | inr fine ↦ rw (ok, fine, mark_applied-snoc log e) done
                ]
        ]

  process_with-Good :
      (m : RepairModule) (action : RepairAction) (b : Bytes) (log : TransactionLog)
      → IsLocal m
      → Undoes log orig b
      → IsGood (process_with (some m) action d b log)
  unfolding process_with
  process_with-Good m action b log local u =
      let kept : FailsWell log b = fails_well log b b u (SameOutside-refl d.offset (size_of d) b) in
      elim (Bool-cases (validate_repair_safe b d)) [
        | inr bad ↦ rw bad kept
        | inl safe ↦ elim (Bool-cases (m.validate b d)) [
          | inr bad ↦ rw (safe, bad) kept
          | inl ok ↦
              let w = safe_window b d (rw u.len ho) safe in
              rw (safe, ok)
                (apply_repair-Good m action b log u w.0 w.1 (m.apply b d) (local.local b d))
        ]
      ]

  find_module-Good :
      (ms : List RepairModule) (action : RepairAction) (b : Bytes) (log : TransactionLog)
      → All IsLocal ms
      → Undoes log orig b
      → IsGood (process_with (find_module ms d) action d b log)
  unfolding process_with find_module
  find_module-Good [] action b log local u = u
  find_module-Good (m ∷ ms) action b log (here, local) u = elim (Bool-cases (m.can_repair d)) [
    | inl takes ↦ rw takes (process_with-Good m action b log here u)
    | inr passes ↦ rw passes (find_module-Good ms action b log local u)
  ]

  pub process_action-Good :
      (ms : List RepairModule) (action : Option RepairAction) (b : Bytes) (log : TransactionLog)
      → All IsLocal ms
      → Undoes log orig b
      → IsGood (process_action ms action d b log)
  unfolding process_action
  process_action-Good ms none b log local u = u
  process_action-Good ms (some action) b log local u = find_module-Good ms action b log local u
