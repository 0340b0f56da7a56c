-- ===== src/Tx/Protocol.antt =====
-- The transaction protocol: what a crash leaves, and what a commit does.
use hivekit.Common.{
  ℕ, ltb, subst, ◌+◌, ◌%◌, ◌^◌, ◌≤◌, ◌<◌, ◌≡◌, ◌≢◌, refl, sym, ap, arith, true, false, length, ok,
  err, All,
}
use hivekit.Common.Bytes.{Bytes, IsByte, peek, slice, peek-lt}
use hivekit.Format.Consts.{header_size}
use hivekit.Format.Stores.{
  peek-result, peek-result-untouched, result, run-eq-result, slice-result-untouched, length-result,
}
use hivekit.Dirty.{add}
use hivekit.Verify.{sequence_numbers, sequence_mismatch}
use hivekit.Tx.{Manager, Step, begin, begin_header, begin_stores}

-- The primary number that Begin writes.
abbrev pub next_seq : Bytes → ℕ
next_seq b = (peek 4 b 4 + 1) % 2 ^ 32

abbrev begun : ℕ → Bytes → Bytes
begun now b = result (begin_stores (next_seq b) now) b

pub begin-eq :
    (m : Manager) (now : ℕ)
    → m.in_tx ≡ false
    → header_size ≤ length m.buffer
    → begin true now m ≡ (
      record m {
        buffer = begun now m.buffer;
        dt = add m.dt 0 header_size;
        seq = next_seq m.buffer;
        in_tx = true;
      },
      ok tt,
    )
unfolding begin begin_header
begin-eq m now idle h =
    let long : ltb (length m.buffer) header_size ≡ false = ground arith in
    let stored =
      run-eq-result (begin_stores (next_seq m.buffer) now) m.buffer
        (omega (arith, h), (omega (arith, h), tt)) in
    simp (idle, long) (ap (begin_header (next_seq m.buffer) m) stored)

wraps : (x : ℕ) → x < 2 ^ 32 → (x + 1) % 2 ^ 32 ≢ x
wraps x h = omega arith

-- Numbers that differ are told apart.
dirty_lem :
    (b : Bytes)
    → header_size ≤ length b
    → peek 4 b 4 ≢ peek 4 b 8
    → sequence_numbers b ≡ err sequence_mismatch
unfolding sequence_numbers
dirty_lem b h apart = ground arith

-- Begin, on a hive with a header page whose two sequence numbers agree, returns with a transaction
-- under way and the two numbers apart, so that a crash before the commit is seen; the secondary
-- number and the bytes behind the time stamp stay.
pub begin_lem :
    (m : Manager) (now k off : ℕ)
    → m.in_tx ≡ false
    → All IsByte m.buffer
    → header_size ≤ length m.buffer
    → peek 4 m.buffer 4 ≡ peek 4 m.buffer 8
    → 20 ≤ off
    → ((begin true now m).1 ≡ ok tt)
      × ((begin true now m).0.in_tx ≡ true)
      × (sequence_numbers (begin true now m).0.buffer ≡ err sequence_mismatch)
      × (peek 4 (begin true now m).0.buffer 4 ≡ (begin true now m).0.seq)
      × (slice 4 8 (begin true now m).0.buffer ≡ slice 4 8 m.buffer)
      × (slice k off (begin true now m).0.buffer ≡ slice k off m.buffer)
begin_lem m now k off idle bytes h same ho =
    let b = begun now m.buffer in
    let ss = begin_stores (next_seq m.buffer) now in
    let primary : peek 4 b 4 ≡ next_seq m.buffer =
      peek-result 4 4 ss m.buffer (next_seq m.buffer) (omega (arith, h), (omega (arith, h), tt))
        refl (omega arith) in
    let secondary : peek 4 b 8 ≡ peek 4 m.buffer 8 = peek-result-untouched 4 8 ss m.buffer refl in
    let apart : peek 4 b 4 ≢ peek 4 b 8 =
      rw (primary, secondary, sym same) (wraps (peek 4 m.buffer 4) (peek-lt 4 m.buffer 4 bytes)) in
    subst
      (λ (s : Step).
        (s.1 ≡ ok tt)
        × (s.0.in_tx ≡ true)
        × (sequence_numbers s.0.buffer ≡ err sequence_mismatch)
        × (peek 4 s.0.buffer 4 ≡ s.0.seq)
        × (slice 4 8 s.0.buffer ≡ slice 4 8 m.buffer)
        × (slice k off s.0.buffer ≡ slice k off m.buffer))
      (sym (begin-eq m now idle h))
      (
        refl,
        refl,
        dirty_lem b (rw (length-result ss m.buffer) h) apart,
        primary,
        slice-result-untouched 4 8 ss m.buffer refl,
        slice-result-untouched k off ss m.buffer (ground arith),
      )
