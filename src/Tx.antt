-- ===== src/Tx.antt =====
-- hive/tx/tx.go: the transaction manager over the tracker of hive/dirty. `now` is the FILETIME of the
-- call of time.Now; after a panic the state is the one before the stores that panic.
pub mod Checksum
pub mod Protocol
pub mod Commit
pub mod Cycle
use Prim.Native.Nat.{bit_xor}
use hivekit.Common.{
  ℕ, zero, suc, ◌+◌, ◌*◌, ◌%◌, ◌^◌, List, [], ◌∷◌, Bool, true, false, not, Option, none, some,
  Outcome, ok, err, panic, length, ltb, if◌then◌else◌,
}
use hivekit.Common.Bytes.{Bytes, peek}
use hivekit.Format.Consts.{
  Error, header_size, primary_seq_offset, secondary_seq_offset, time_stamp_offset, checksum_offset,
  checksum_region_len, checksum_dwords,
}
use hivekit.Format.Stores.{Store, u32, u64, run}
use hivekit.Dirty.{FlushMode, Range, Tracker, Answer, add, flush_data_only, flush_header_and_meta}

-- A Manager with the bytes of its hive and its tracker.
pub record Manager : Type 0 where
  pub buffer : Bytes
  pub dt : Tracker
  pub mode : FlushMode
  pub seq : ℕ
  pub in_tx : Bool

pub data TxError : Type 0 where
  cancelled too_small flush_failed header_failed : TxError

-- What the environment does during a commit: the context at its three places, msync and fdatasync.
pub record CommitEnv : Type 0 where
  pub cancelled_before : Bool
  pub answers : Range → Answer
  pub live : Bool
  pub live_header : Bool
  pub msync_ok : Bool
  pub live_meta : Bool
  pub fdatasync_ok : Bool
  pub now : ℕ

abbrev pub Step : Type 0
Step = Manager × Outcome TxError (Unit {0})

new_manager : Bytes → Tracker → FlushMode → Manager
new_manager buffer dt mode = record {
  buffer = buffer;
  dt = dt;
  mode = mode;
  seq = 0;
  in_tx = false;
}

abbrev pub begin_stores : ℕ → ℕ → List Store
begin_stores new_seq now = u32 primary_seq_offset new_seq ∷ u64 time_stamp_offset now ∷ []

-- Behind the two stores of Begin.
unfoldable pub begin_header : ℕ → Manager → Outcome Error Bytes → Step
begin_header new_seq m (ok buffer') =
    (record m { buffer = buffer'; dt = add m.dt 0 header_size; seq = new_seq; in_tx = true }, ok tt)
begin_header new_seq m _ = (m, panic)

unfoldable pub begin : Bool → ℕ → Manager → Step
unfolding begin_header
begin live now m =
    if not live
    then (m, err cancelled)
    else if m.in_tx
    then (m, ok tt)
    else if ltb (length m.buffer) header_size
    then (m, err too_small)
    else let new_seq = (peek 4 m.buffer primary_seq_offset + 1) % 2 ^ 32 in
      begin_header new_seq m (run (begin_stores new_seq now) m.buffer)

-- The loop of calculateHeaderChecksum, from dword `i` on.
pub xor_dwords : Bytes → ℕ → ℕ → ℕ → ℕ
xor_dwords buffer i zero checksum = checksum
xor_dwords buffer i (suc n) checksum =
    xor_dwords buffer (i + 1) n (bit_xor checksum (peek 4 buffer (i * 4)) % 2 ^ 32)

pub calculate_header_checksum : Bytes → ℕ
unfolding xor_dwords
calculate_header_checksum buffer =
    if ltb (length buffer) checksum_region_len then 0 else xor_dwords buffer 0 checksum_dwords 0

-- Steps 5 and 6: the header is flushed, and the transaction ends.
pub finish_commit : CommitEnv → Manager → Step
finish_commit env m =
    let flushed =
      flush_header_and_meta env.live_header env.msync_ok env.live_meta env.fdatasync_ok
        (length m.buffer) m.mode m.dt in
    if flushed.1 then (m, err header_failed) else (record m { in_tx = false }, ok tt)

abbrev pub commit_stores : ℕ → ℕ → List Store
commit_stores seq now = u32 secondary_seq_offset seq ∷ u64 time_stamp_offset now ∷ []

-- Behind the store of the checksum.
pub seal : CommitEnv → Manager → Outcome Error Bytes → Step
unfolding finish_commit
seal env m (ok buffer') =
    finish_commit env (record m { buffer = buffer'; dt = add m.dt 0 header_size })
seal env m _ = (m, panic)

-- Behind the stores of step 2.
pub commit_header : CommitEnv → Manager → Outcome Error Bytes → Step
unfolding seal calculate_header_checksum
commit_header env m (ok buffer') =
    seal env (record m { buffer = buffer' })
      (run (u32 checksum_offset (calculate_header_checksum buffer') ∷ []) buffer')
commit_header env m _ = (m, panic)

-- Behind the flush of step 1.
unfoldable pub after_flush : CommitEnv → Manager → Option Answer → Step
unfolding commit_header
after_flush env m (some e) = (m, err flush_failed)
after_flush env m none =
    if not env.live
    then (m, err cancelled)
    else commit_header env m (run (commit_stores m.seq env.now) m.buffer)

unfoldable pub commit : CommitEnv → Manager → Step
unfolding after_flush
commit env m =
    let flushed = flush_data_only env.cancelled_before env.answers (length m.buffer) m.dt in
    if not m.in_tx
    then (m, ok tt)
    else after_flush env (record m { dt = flushed.tracker }) flushed.error

unfoldable pub rollback : Manager → Manager
rollback m = record m { in_tx = false }
