-- ===== src/Tx/Commit.antt =====
-- What a commit does to the header.
use hivekit.Common.{
  ℕ, subst, ◌^◌, ◌≤◌, ◌<◌, ◌≡◌, refl, sym, ap, ◌∙◌, arith, Bool, true, false, none, List, [], ◌∷◌,
  length, ok, err, not, if◌then◌else◌,
}
use hivekit.Common.Bytes.{Bytes, peek, slice}
use hivekit.Format.Consts.{header_size, checksum_offset}
use hivekit.Format.Stores.{
  Store, u32, run, peek-result, peek-result-untouched, result, run-eq-result,
  slice-result-untouched, length-result,
}
use hivekit.Dirty.{add, flush_data_only, Flushed, flush_header_and_meta}
use hivekit.Verify.{sequence_numbers, checksum}
use hivekit.Tx.{
  Manager, TxError, header_failed, CommitEnv, Step, commit, after_flush, commit_header,
  commit_stores, seal, finish_commit, calculate_header_checksum,
}
use hivekit.Tx.Checksum.{checksum-sealed}

-- The flush that a commit begins with.
abbrev pub data_flush : CommitEnv → Manager → Flushed
data_flush env m = flush_data_only env.cancelled_before env.answers (length m.buffer) m.dt

opened :
    (env : CommitEnv) (m : Manager)
    → m.in_tx ≡ true
    → (commit env m).1 ≡ ok tt
    → ((data_flush env m).error ≡ none) × (env.live ≡ true)
unfolding commit
opened env m busy h = ground arith

abbrev stamped : CommitEnv → Manager → Bytes
stamped env m = result (commit_stores m.seq env.now) m.buffer

abbrev seal_stores : Bytes → List Store
seal_stores b = u32 checksum_offset (calculate_header_checksum b) ∷ []

abbrev pub sealed : CommitEnv → Manager → Bytes
sealed env m = result (seal_stores (stamped env m)) (stamped env m)

abbrev pub sealed_manager : CommitEnv → Manager → Manager
sealed_manager env m = record m {
  buffer = sealed env m;
  dt = add (data_flush env m).tracker 0 header_size;
}

pub commit-eq :
    (env : CommitEnv) (m : Manager)
    → m.in_tx ≡ true
    → (data_flush env m).error ≡ none
    → env.live ≡ true
    → header_size ≤ length m.buffer
    → commit env m ≡ finish_commit env (sealed_manager env m)
unfolding commit commit_header seal
commit-eq env m busy flushed live h =
    let m' : Manager = record m { dt = (data_flush env m).tracker } in
    let stored =
      run-eq-result (commit_stores m.seq env.now) m.buffer
        (omega (arith, h), (omega (arith, h), tt)) in
    let same : length (stamped env m) ≡ length m.buffer =
      length-result (commit_stores m.seq env.now) m.buffer in
    let stored' =
      run-eq-result (seal_stores (stamped env m)) (stamped env m) (omega (arith, h, same), tt) in
    ap (λ t. if not t then (m, ok tt) else after_flush env m' (data_flush env m).error) busy
    ∙ ap (after_flush env m') flushed
    ∙ ap
        (λ t.
          if not t
          then (m', err TxError.cancelled)
          else commit_header env m' (run (commit_stores m.seq env.now) m.buffer))
        live
    ∙ ap (commit_header env m') stored
    ∙ ap (seal env (record m' { buffer = stamped env m })) stored'

ended_if :
    (t : Bool) (p q : Step)
    → p.1 ≡ err header_failed
    → (if t then p else q).1 ≡ ok tt
    → (if t then p else q).0 ≡ q.0
ended_if true p q hp h = cc
ended_if false p q hp h = refl

-- A commit that ends well changes no byte after the seal.
finished :
    (env : CommitEnv) (m : Manager)
    → (finish_commit env m).1 ≡ ok tt
    → (finish_commit env m).0 ≡ record m { in_tx = false }
unfolding finish_commit
finished env m h =
    ended_if
      (flush_header_and_meta env.live_header env.msync_ok env.live_meta env.fdatasync_ok
        (length m.buffer) m.mode m.dt).1
      (m, err header_failed) (record m { in_tx = false }, ok tt) refl h

-- Equal numbers pass.
clean_lem :
    (b : Bytes) → header_size ≤ length b → peek 4 b 4 ≡ peek 4 b 8 → sequence_numbers b ≡ ok tt
unfolding sequence_numbers
clean_lem b h same = ground arith

module _ (env : CommitEnv) (m : Manager) (h : header_size ≤ length m.buffer) where
  stamped-length : length (stamped env m) ≡ length m.buffer
  stamped-length = length-result (commit_stores m.seq env.now) m.buffer

  sealed-length : length (sealed env m) ≡ length m.buffer
  sealed-length = length-result (seal_stores (stamped env m)) (stamped env m) ∙ stamped-length

  sealed_primary : peek 4 (sealed env m) 4 ≡ peek 4 m.buffer 4
  sealed_primary =
      peek-result-untouched 4 4 (seal_stores (stamped env m)) (stamped env m) refl
      ∙ peek-result-untouched 4 4 (commit_stores m.seq env.now) m.buffer refl

  sealed_secondary : m.seq < 2 ^ 32 → peek 4 (sealed env m) 8 ≡ m.seq
  sealed_secondary small =
      peek-result-untouched 4 8 (seal_stores (stamped env m)) (stamped env m) refl
      ∙ peek-result 4 8 (commit_stores m.seq env.now) m.buffer m.seq
          (omega (arith, h), (omega (arith, h), tt)) refl small

  sealed_body : (k off : ℕ) → 512 ≤ off → slice k off (sealed env m) ≡ slice k off m.buffer
  sealed_body k off ho =
      slice-result-untouched k off (seal_stores (stamped env m)) (stamped env m) (ground arith)
      ∙ slice-result-untouched k off (commit_stores m.seq env.now) m.buffer (ground arith)

  sealed-checksum : checksum (sealed env m) ≡ ok tt
  unfolding result
  sealed-checksum = checksum-sealed (stamped env m) (rw stamped-length h)

-- A commit that returns without an error, of a transaction under way whose number stands in the
-- header as the primary one, on a hive with a header page, ends it: both sequence numbers are its
-- number, the hive's check of them and that of the checksum pass, and the bytes behind the first
-- 512 stay.
pub commit_lem :
    (env : CommitEnv) (m : Manager) (k off : ℕ)
    → m.in_tx ≡ true
    → header_size ≤ length m.buffer
    → m.seq < 2 ^ 32
    → peek 4 m.buffer 4 ≡ m.seq
    → 512 ≤ off
    → (commit env m).1 ≡ ok tt
    → (sequence_numbers (commit env m).0.buffer ≡ ok tt)
      × (checksum (commit env m).0.buffer ≡ ok tt)
      × ((commit env m).0.in_tx ≡ false)
      × (peek 4 (commit env m).0.buffer 8 ≡ m.seq)
      × (slice k off (commit env m).0.buffer ≡ slice k off m.buffer)
commit_lem env m k off busy h small primary ho e =
    let (flushed, live) = opened env m busy e in
    let run_eq = commit-eq env m busy flushed live h in
    let ended : (commit env m).0 ≡ record (sealed_manager env m) { in_tx = false } =
      ap (λ (s : Step). s.0) run_eq
      ∙ finished env (sealed_manager env m) (sym (ap (λ (s : Step). s.1) run_eq) ∙ e) in
    subst
      (λ (n : Manager).
        (sequence_numbers n.buffer ≡ ok tt)
        × (checksum n.buffer ≡ ok tt)
        × (n.in_tx ≡ false)
        × (peek 4 n.buffer 8 ≡ m.seq)
        × (slice k off n.buffer ≡ slice k off m.buffer))
      (sym ended)
      (
        clean_lem (sealed env m) (rw (sealed-length env m h) h)
            (sealed_primary env m h ∙ primary ∙ sym (sealed_secondary env m h small)),
        sealed-checksum env m h,
        refl,
        sealed_secondary env m h small,
        sealed_body env m h k off ho,
      )
