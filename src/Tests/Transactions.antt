-- ===== src/Tests/Transactions.antt =====
-- hive/tx at concrete inputs.
use hivekit.Common.{ℕ, zero, suc, ◌≡◌, refl, arith, [], ◌∷◌, length, All, ok, true, false, ap}
use hivekit.Common.Bytes.{Bytes, IsByte, peek, slice}
use hivekit.Format.Consts.{header_size}
use hivekit.Dirty.{FlushMode, Tracker, flush_data_only}
use hivekit.Format.Stores.{run, write_store}
use hivekit.Verify.{sequence_numbers, checksum}
use hivekit.Tx.{Manager, flush_failed, CommitEnv, begin, commit, after_flush, begin_header}
use hivekit.Tx.Cycle.{healthy, edited, transaction_lem, commit-aborted}

abbrev blank : ℕ → Bytes
blank zero = []
blank (suc n) = 0 ∷ blank n

length-blank : (n : ℕ) → length (blank n) ≡ n
length-blank zero = refl
length-blank (suc n) = ap suc (length-blank n)

blank-IsByte : (n : ℕ) → All IsByte (blank n)
blank-IsByte zero = tt
blank-IsByte (suc n) = (omega arith, blank-IsByte n)

-- A header page whose numbers are both 0.
abbrev page : Bytes
page = blank header_size

abbrev one_range : Tracker
one_range = record { ranges = record { off = 4096; len = 8 } ∷ []; page_size = 4096 }

abbrev idle : Manager
idle = record { buffer = page; dt = one_range; mode = FlushMode.flush_auto; seq = 0; in_tx = false }

-- The transaction whose number is 7.
abbrev busy_page : Bytes
busy_page = 0 ∷ 0 ∷ 0 ∷ 0 ∷ 7 ∷ 0 ∷ 0 ∷ 0 ∷ 6 ∷ 0 ∷ 0 ∷ 0 ∷ page

abbrev busy : Manager
busy = record {
  buffer = busy_page;
  dt = one_range;
  mode = FlushMode.flush_full;
  seq = 7;
  in_tx = true;
}

-- What the edits have left: a longer hive.
abbrev edited_page : Bytes
edited_page = 0 ∷ 0 ∷ 0 ∷ 0 ∷ 1 ∷ 0 ∷ 0 ∷ 0 ∷ page

transaction_lem_example :
    let c = commit (healthy 78) (edited (begin true 77 idle).0 edited_page one_range) in
    (c.1 ≡ ok tt)
    × (c.0.in_tx ≡ false)
    × (peek 4 c.0.buffer 8 ≡ 1)
    × (sequence_numbers c.0.buffer ≡ ok tt)
    × (checksum c.0.buffer ≡ ok tt)
unfolding peek slice begin begin_header run write_store
transaction_lem_example =
    transaction_lem idle 77 78 edited_page one_range refl (blank-IsByte header_size)
      (omega (arith, length-blank header_size)) refl (omega (arith, length-blank header_size)) refl

-- The context is cancelled when the commit begins.
abbrev cancelled_env : CommitEnv
cancelled_env = record (healthy 78) { cancelled_before = true }

commit-aborted_example :
    ((commit cancelled_env busy).0.buffer ≡ busy_page)
    × ((commit cancelled_env busy).0.in_tx ≡ true)
unfolding commit after_flush flush_data_only
commit-aborted_example =
    commit-aborted cancelled_env busy flush_failed refl (omega (arith, length-blank header_size))
      refl (λ p. cc)
