-- ===== src/Tx/Cycle.antt =====
-- A whole transaction: that it ends, and what an interrupted commit leaves.
use hivekit.Common.{
  ℕ, ◌+◌, ◌%◌, ◌^◌, ◌≤◌, ◌<◌, ◌≡◌, ◌≢◌, refl, sym, ap, ◌∙◌, arith, Bool, true, false, none, List,
  [], ◌∷◌, length, ok, err, All, Bool-cases, Option-cases, inl, inr, not, if◌then◌else◌,
}
use hivekit.Common.Bytes.{Bytes, IsByte, peek}
use hivekit.Format.Consts.{header_size}
use hivekit.Dirty.{
  FlushMode, Range, Tracker, done, flush_loop, flush_data_only, flush_header_and_meta, coalesce,
}
use hivekit.Format.Stores.{run}
use hivekit.Verify.{sequence_numbers, checksum}
use hivekit.Tx.{
  Manager, TxError, header_failed, CommitEnv, Step, begin, commit, after_flush, commit_header,
  commit_stores, finish_commit,
}
use hivekit.Tx.Protocol.{next_seq, begin_lem, begin-eq}
use hivekit.Tx.Commit.{data_flush, sealed_manager, commit-eq, commit_lem}

-- Nothing cancels the commit, and every call to the system returns.
abbrev pub healthy : ℕ → CommitEnv
healthy now = record {
  cancelled_before = false;
  answers = λ r. done;
  live = true;
  live_header = true;
  msync_ok = true;
  live_meta = true;
  fdatasync_ok = true;
  now = now;
}

flush_loop-answered : (n : ℕ) (rs : List Range) → (flush_loop (λ r. done) n rs).1 ≡ none
unfolding flush_loop
flush_loop-answered n [] = refl
flush_loop-answered n (r ∷ rs) = ground (arith, flush_loop-answered n rs)

data_flush-healthy :
    (n : ℕ) (rs : List Range) (s : ℕ)
    → (flush_data_only false (λ r. done) n (record { ranges = rs; page_size = s })).error ≡ none
unfolding flush_data_only
data_flush-healthy n [] s = refl
data_flush-healthy n (r ∷ rs) s =
    ground (arith, flush_loop-answered n (coalesce (record { ranges = r ∷ rs; page_size = s })))

header_flush-healthy :
    (n : ℕ) (mode : FlushMode) (t : Tracker)
    → (flush_header_and_meta true true true true n mode t).1 ≡ false
unfolding flush_header_and_meta
header_flush-healthy n FlushMode.flush_auto t = ground arith
header_flush-healthy n FlushMode.flush_data_only_mode t = ground arith
header_flush-healthy n FlushMode.flush_full t = ground arith

abbrev pick : Bool → Step → Step → Step
pick u p q = if u then p else q

finish-healthy : (now : ℕ) (m : Manager) → (finish_commit (healthy now) m).1 ≡ ok tt
unfolding finish_commit
finish-healthy now m =
    ap (λ (u : Bool). (pick u (m, err header_failed) (record m { in_tx = false }, ok tt)).1)
      (header_flush-healthy (length m.buffer) m.mode m.dt)

-- A commit of a transaction under way returns without an error when nothing fails around it.
commit-healthy :
    (now : ℕ) (m : Manager)
    → m.in_tx ≡ true
    → header_size ≤ length m.buffer
    → (commit (healthy now) m).1 ≡ ok tt
commit-healthy now m busy h =
    ap (λ (s : Step). s.1)
      (commit-eq (healthy now) m busy
        (data_flush-healthy (length m.buffer) m.dt.ranges m.dt.page_size) refl h)
    ∙ finish-healthy now (sealed_manager (healthy now) m)

-- The manager of a transaction under way, over the bytes and the ranges that the edits have left.
abbrev pub edited : Manager → Bytes → Tracker → Manager
edited m b t = record m { buffer = b; dt = t }

-- A transaction on a clean hive with a header page: Begin, then any edits of the bytes and the
-- ranges that keep the header page and the primary number, then a commit around which nothing
-- fails. The commit returns without an error, the transaction is over, both numbers are the old
-- primary number plus one, modulo 2^32, and the checks of the numbers and of the checksum pass.
pub transaction_lem :
    (m : Manager) (now now' : ℕ) (b : Bytes) (t : Tracker)
    → m.in_tx ≡ false
    → All IsByte m.buffer
    → header_size ≤ length m.buffer
    → peek 4 m.buffer 4 ≡ peek 4 m.buffer 8
    → header_size ≤ length b
    → peek 4 b 4 ≡ peek 4 (begin true now m).0.buffer 4
    → let c = commit (healthy now') (edited (begin true now m).0 b t) in
      (c.1 ≡ ok tt)
      × (c.0.in_tx ≡ false)
      × (peek 4 c.0.buffer 8 ≡ (peek 4 m.buffer 8 + 1) % 2 ^ 32)
      × (sequence_numbers c.0.buffer ≡ ok tt)
      × (checksum c.0.buffer ≡ ok tt)
transaction_lem m now now' b t idle bytes h same hb primary =
    let (started, busy, dirty, number, kept, rest) =
      begin_lem m now 0 20 idle bytes h same (omega arith) in
    let seq : (begin true now m).0.seq ≡ next_seq m.buffer =
      ap (λ (s : Step). s.0.seq) (begin-eq m now idle h) in
    let m' : Manager = edited (begin true now m).0 b t in
    let ended : (commit (healthy now') m').1 ≡ ok tt = commit-healthy now' m' busy hb in
    let small : m'.seq < 2 ^ 32 = rw seq (omega arith) in
    let (numbers, sum, over, second, body) =
      commit_lem (healthy now') m' 0 512 busy hb small (primary ∙ number) (omega arith) ended in
    (ended, over, second ∙ seq ∙ ap (λ x. (x + 1) % 2 ^ 32) same, numbers, sum)

outcome_if :
    (u : Bool) (p q : Step) (e : TxError)
    → p.1 ≡ err header_failed
    → q.1 ≡ ok tt
    → (if u then p else q).1 ≡ err e
    → e ≡ header_failed
outcome_if true p q e hp hq h = ground arith
outcome_if false p q e hp hq h = cc

-- A commit of a transaction under way, on a hive with a header page, that fails before its header
-- flush has not touched a byte, and the transaction goes on.
pub commit-aborted :
    (env : CommitEnv) (m : Manager) (e : TxError)
    → m.in_tx ≡ true
    → header_size ≤ length m.buffer
    → (commit env m).1 ≡ err e
    → e ≢ header_failed
    → ((commit env m).0.buffer ≡ m.buffer) × ((commit env m).0.in_tx ≡ true)
unfolding commit after_flush finish_commit
commit-aborted env m e busy h failed early =
    let flushed = data_flush env m in
    let m' : Manager = record m { dt = flushed.tracker } in
    let run_eq : commit env m ≡ after_flush env m' flushed.error =
      ap (λ u. if not u then (m, ok tt) else after_flush env m' flushed.error) busy in
    elim (Option-cases flushed.error) [
      | inr (a, k) ↦
          let stop = run_eq ∙ ap (after_flush env m') k in
          (ap (λ (s : Step). s.0.buffer) stop, ap (λ (s : Step). s.0.in_tx) stop ∙ busy)
      | inl k ↦ elim (Bool-cases env.live) [
        | inr dead ↦
            let stop =
              run_eq
              ∙ ap (after_flush env m') k
              ∙ ap
                  (λ u.
                    if not u
                    then (m', err TxError.cancelled)
                    else commit_header env m' (run (commit_stores m.seq env.now) m.buffer))
                  dead in
            (ap (λ (s : Step). s.0.buffer) stop, ap (λ (s : Step). s.0.in_tx) stop ∙ busy)
        | inl live ↦
            let sm : Manager = sealed_manager env m in
            let late : (finish_commit env sm).1 ≡ err e =
              sym (ap (λ (s : Step). s.1) (commit-eq env m busy k live h)) ∙ failed in
            absurd (
              early (
                outcome_if
                  (flush_header_and_meta env.live_header env.msync_ok env.live_meta env.fdatasync_ok
                    (length sm.buffer) sm.mode sm.dt).1
                  (sm, err header_failed) (record sm { in_tx = false }, ok tt) e refl refl late))
      ]
    ]
