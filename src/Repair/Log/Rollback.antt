-- ===== src/Repair/Log/Rollback.antt =====
-- What a rollback restores.
use mathlib.Core.List.{reverse, reverse_aux, reverse-append}
use hivekit.Common.{
  ℕ, ◌+◌, ◌-◌, ◌%◌, ◌^◌, ◌≤◌, ◌<◌, ◌≡◌, refl, sym, ap, ◌∙◌, List, [], ◌∷◌, ◌++◌, length, Option,
  none, get_elem?, true, false, ◌&&◌, ltb, leb, if◌then◌else◌, arith, All, Bool-cases, inl, inr,
}
use hivekit.Common.Bytes.{Bytes, poke, slice, length-poke, length-slice}
use hivekit.Common.Points.{get_elem?-poke, get_elem?-slice, buffer_ext}
use hivekit.Repair.Log.{LogEntry, TransactionLog, rollback_loop, rollback}

-- The byte at a place outside the window of `n` bytes at `off`.
abbrev pub outside : ℕ → ℕ → Bytes → ℕ → Option ℕ
outside off n b x = if leb off x && ltb x (off + n) then none else get_elem? b x

-- `b` has the length of `a`, and its bytes but for those of the window.
pub record SameOutside (off n : ℕ) (a b : Bytes) : Type 0 where
  pub len : length a ≡ length b
  pub bytes : (x : ℕ) → outside off n a x ≡ outside off n b x

restore_at :
    (off n : ℕ) (a b : Bytes) (x : ℕ)
    → off + n ≤ length a
    → SameOutside off n a b
    → get_elem? (poke (slice n off a) off b) x ≡ get_elem? a x
restore_at off n a b x h s = elim (Bool-cases (leb off x)) [
  | inl e ↦
      let back : off + (x - off) ≡ x = ground arith in
      ground (
        arith,
        length-slice n off a h,
        get_elem?-poke (slice n off a) off b x,
        get_elem?-slice n off a (x - off),
        ap (get_elem? a) back,
        s.bytes x,
        s.len,
      )
  | inr e ↦ ground (arith, get_elem?-poke (slice n off a) off b x, s.bytes x)
]

-- Writing back what stood in a window restores a buffer that differs only there.
pub poke-restore :
    (off n : ℕ) (a b : Bytes)
    → off + n ≤ length a
    → SameOutside off n a b
    → poke (slice n off a) off b ≡ a
poke-restore off n a b h s =
    buffer_ext (poke (slice n off a) off b) a (λ x. restore_at off n a b x h s)

-- One write at both keeps them alike.
SameOutside-poke :
    (off n : ℕ) (a b ws : Bytes) (i : ℕ)
    → SameOutside off n a b
    → SameOutside off n (poke ws i a) (poke ws i b)
SameOutside-poke off n a b ws i s = record {
  len = length-poke ws i a ∙ s.len ∙ sym (length-poke ws i b);
  bytes = λ x. ground (arith, get_elem?-poke ws i a x, get_elem?-poke ws i b x, s.bytes x, s.len);
}

-- The entries fit a buffer of `n` bytes.
abbrev pub Fits : ℕ → LogEntry → Type 0
Fits n e = (e.offset + e.size ≤ n) × (e.size ≡ length e.old_data)

-- A rollback of buffers that are alike outside a window leaves them so.
rollback_loop-SameOutside :
    (off n : ℕ) (es : List LogEntry) (a b : Bytes) (r : ℕ)
    → SameOutside off n a b
    → SameOutside off n (rollback_loop es a r).buffer (rollback_loop es b r).buffer
unfolding rollback_loop
rollback_loop-SameOutside off n [] a b r s = s
rollback_loop-SameOutside off n (e ∷ es) a b r s = elim (Bool-cases e.applied) [
  | inr skipped ↦ rw skipped (rollback_loop-SameOutside off n es a b r s)
  | inl applied ↦ elim (Bool-cases (ltb (length a) ((e.offset + e.size) % 2 ^ 64))) [
    | inl short ↦
        let short' : ltb (length b) ((e.offset + e.size) % 2 ^ 64) ≡ true = rw s.len at short in
        rw (applied, short, short') s
    | inr fits ↦
        let fits' : ltb (length b) ((e.offset + e.size) % 2 ^ 64) ≡ false = rw s.len at fits in
        rw (applied, fits, fits')
          (rollback_loop-SameOutside off n es (poke e.old_data e.offset a)
            (poke e.old_data e.offset b) (r + 1) (SameOutside-poke off n a b e.old_data e.offset s))
  ]
]

pub SameOutside-refl : (off n : ℕ) (a : Bytes) → SameOutside off n a a
SameOutside-refl off n a = record { len = refl; bytes = λ x. refl }

-- With entries that fit, the rollback stops at none.
rollback_loop-not_failed :
    (es : List LogEntry) (n : ℕ) (b : Bytes) (r : ℕ)
    → n < 2 ^ 63
    → length b ≡ n
    → All (Fits n) es
    → (rollback_loop es b r).failed ≡ false
unfolding rollback_loop
rollback_loop-not_failed [] n b r hn hb h = refl
rollback_loop-not_failed (e ∷ es) n b r hn hb ((k, _), h) = ground (
  arith,
  rollback_loop-not_failed es n b r hn hb h,
  rollback_loop-not_failed es n (poke e.old_data e.offset b) (r + 1) hn
      (length-poke e.old_data e.offset b ∙ hb) h,
)

-- The most recent entry is undone first, if it was applied.
rollback-snoc :
    (log : TransactionLog) (e : LogEntry) (b : Bytes)
    → rollback (log ++ (e ∷ [])) b ≡ rollback_loop (e ∷ reverse log) b 0
unfolding rollback
rollback-snoc log e b = ap (λ l. rollback_loop l b 0) (reverse-append log (e ∷ []))

-- The number of entries undone so far does not matter to the buffer.
rollback_loop-count :
    (es : List LogEntry) (b : Bytes) (r q : ℕ)
    → (rollback_loop es b r).buffer ≡ (rollback_loop es b q).buffer
unfolding rollback_loop
rollback_loop-count [] b r q = refl
rollback_loop-count (e ∷ es) b r q = ground (
  arith,
  rollback_loop-count es b r q,
  rollback_loop-count es (poke e.old_data e.offset b) (r + 1) (q + 1),
)

-- An entry that was not applied is passed over.
pub rollback-snoc_pending :
    (log : TransactionLog) (e : LogEntry) (b : Bytes)
    → e.applied ≡ false
    → (rollback (log ++ (e ∷ [])) b).buffer ≡ (rollback log b).buffer
unfolding rollback_loop rollback
rollback-snoc_pending log e b h =
    ap (λ l. (rollback_loop l b 0).buffer) (reverse-append log (e ∷ [])) ∙ rw h refl

-- One that was applied is undone before the rest.
pub rollback-snoc_applied :
    (log : TransactionLog) (e : LogEntry) (b : Bytes)
    → e.applied ≡ true
    → ltb (length b) ((e.offset + e.size) % 2 ^ 64) ≡ false
    → (rollback (log ++ (e ∷ [])) b).buffer ≡ (rollback log (poke e.old_data e.offset b)).buffer
unfolding rollback_loop rollback
rollback-snoc_applied log e b h fits =
    ap (λ l. (rollback_loop l b 0).buffer) (reverse-append log (e ∷ []))
    ∙ rw (h, fits) (rollback_loop-count (reverse log) (poke e.old_data e.offset b) 1 0)

pub rollback-SameOutside :
    (off n : ℕ) (log : TransactionLog) (a b : Bytes)
    → SameOutside off n a b
    → SameOutside off n (rollback log a).buffer (rollback log b).buffer
unfolding rollback
rollback-SameOutside off n log a b s = rollback_loop-SameOutside off n (reverse log) a b 0 s

All-reverse_aux :
    (n : ℕ) (es acc : List LogEntry)
    → All (Fits n) es
    → All (Fits n) acc
    → All (Fits n) (reverse_aux es acc)
All-reverse_aux n [] acc h k = k
All-reverse_aux n (e ∷ es) acc (he, h) k = All-reverse_aux n es (e ∷ acc) h (he, k)

pub rollback-not_failed :
    (log : TransactionLog) (b : Bytes)
    → length b < 2 ^ 63
    → All (Fits (length b)) log
    → (rollback log b).failed ≡ false
unfolding rollback
rollback-not_failed log b hb h =
    rollback_loop-not_failed (reverse log) (length b) b 0 hb refl
      (All-reverse_aux (length b) log [] h tt)
