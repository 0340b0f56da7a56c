-- ===== src/Format/Lists/Shape.antt =====
-- Which lists the decoders accept, and what they read from them.
use hivekit.Common.{
  Option, length-drop, none, some, All, ◌||◌, ℕ, zero, suc, ◌+◌, ◌*◌, ◌^◌, ◌≤◌, ◌<◌, ◌≡◌, refl, ap,
  arith, List, [], ◌∷◌, Outcome, ok, err, length, ltb, leb, if◌then◌else◌, take, drop, drop-drop,
}
use hivekit.Common.Bytes.{Bytes, peek, slice, le_value, IsByte, peek-lt}
use hivekit.Common.Int.{pos, ◌+ℤ◌, ◌*ℤ◌, wrap_int}
use hivekit.Buf.{add_int, mul_int, check_list_bounds}
use hivekit.Buf.Exact.{mul_overflow_safe-exact, add_overflow_safe-exact}
use hivekit.Format.Consts.{
  Error, truncated, unsupported, list_bounds, sanity_limit, max_subkey_count, max_value_count,
  bytes_equal, li_signature, lf_signature, lh_signature,
}
use hivekit.Format.Encoding.Laws.{checked_read_u16_in, checked_read_u32_in}
use hivekit.Format.Lists.{
  decode_entries, bounds_checked, decode_li, decode_lf, decode_value_list, decode_subkey_list,
  decode_by_signature, entry_count,
}

-- The words that a list of `n` entries holds from entry `i` on.
unfoldable pub entries_at : ℕ → ℕ → Bytes → ℕ → ℕ → List ℕ
entries_at base stride b i zero = []
entries_at base stride b i (suc n) =
    peek 4 b (base + i * stride) ∷ entries_at base stride b (i + 1) n

int_offset :
    (base stride i : ℕ)
    → base + i * stride < 2 ^ 62
    → add_int (pos base) (mul_int (pos i) (pos stride)) ≡ pos (base + i * stride)
unfolding ◌+ℤ◌ ◌*ℤ◌ wrap_int
int_offset base stride i h = ground arith

-- Inside the buffer the loop reads every entry.
decode_entries_lem :
    (base stride : ℕ) (b : Bytes) (i n : ℕ)
    → 4 ≤ stride
    → length b < 2 ^ 62
    → base + (i + n) * stride ≤ length b
    → decode_entries base stride b i n ≡ ok (entries_at base stride b i n)
unfolding decode_entries entries_at
decode_entries_lem base stride b i zero hs hb h = refl
decode_entries_lem base stride b i (suc n) hs hb h =
    let here : base + i * stride + 4 ≤ length b = grind arith in
    rw (
      int_offset base stride i (omega arith),
      checked_read_u32_in (base + i * stride) b (omega arith) here,
      decode_entries_lem base stride b (i + 1) n hs hb (grind arith),
    )

-- The bounds test in plain arithmetic.
bounds_checked_lem :
    (n o c s : ℕ)
    → n < 2 ^ 62
    → o < 2 ^ 62
    → c < 2 ^ 62
    → s < 2 ^ 62
    → bounds_checked (check_list_bounds (pos n) (pos o) (pos c) (pos s))
      ≡ (if leb (o + c * s) n then ok tt else err list_bounds)
unfolding check_list_bounds ◌*ℤ◌ ◌+ℤ◌
bounds_checked_lem n o c s hn ho hc hs = ground (
  arith,
  mul_overflow_safe-exact (pos c) (pos s) (ground arith) (ground arith),
  add_overflow_safe-exact (pos o) (pos (c * s)) (ground arith),
)

-- What the decoders answer on a buffer, in the order of their tests.
list_answer : ℕ → ℕ → ℕ → Bytes → ℕ → Outcome Error (List ℕ)
list_answer limit base stride b n =
    if ltb limit n
    then err sanity_limit
    else if leb (base + n * stride) (length b)
    then ok (entries_at base stride b 0 n)
    else err list_bounds

peek-drop : (k m : ℕ) (b : Bytes) (j : ℕ) → peek k (drop m b) j ≡ peek k b (m + j)
unfolding peek slice
peek-drop k m b j = ap (λ t. le_value (take k t)) (drop-drop m j b)

-- Entries behind a header are entries at an offset.
entries_at-drop :
    (m stride : ℕ) (b : Bytes) (i n : ℕ)
    → entries_at 0 stride (drop m b) i n ≡ entries_at m stride b i n
unfolding entries_at
entries_at-drop m stride b i zero = refl
entries_at-drop m stride b i (suc n) =
    rw (peek-drop, entries_at-drop m stride b (i + 1) n)
      (ap (λ j. peek 4 b j ∷ entries_at m stride b (i + 1) n) (omega arith))

module _ (b : Bytes) (n : ℕ) (hb : length b < 2 ^ 62) (hn : n < 2 ^ 32) where
  decode_li-eq : decode_li b n ≡ list_answer max_subkey_count 0 4 b n
  unfolding decode_li list_answer
  decode_li-eq =
      ground
        (arith, bounds_checked_lem (length b) 0 n 4, decode_entries_lem 0 4 b 0 n (omega arith))

  decode_lf-eq : decode_lf b n ≡ list_answer max_subkey_count 0 8 b n
  unfolding decode_lf list_answer
  decode_lf-eq =
      ground
        (arith, bounds_checked_lem (length b) 0 n 8, decode_entries_lem 0 8 b 0 n (omega arith))

-- The width of an entry, by the signature.
abbrev stride_of : Bytes → Option ℕ
stride_of sig =
    if bytes_equal sig li_signature
    then some 4
    else if bytes_equal sig lf_signature || bytes_equal sig lh_signature
    then some 8
    else none

list_answer_behind :
    (stride : ℕ) (b : Bytes) (n : ℕ)
    → 4 ≤ length b
    → n ≤ max_subkey_count
    → list_answer max_subkey_count 0 stride (drop 4 b) n ≡ (
        if leb (4 + n * stride) (length b) then ok (entries_at 4 stride b 0 n) else err list_bounds)
unfolding list_answer
list_answer_behind stride b n h hn =
    rw (length-drop 4 b, entries_at-drop 4 stride b 0 n) (ground arith)

by_signature_eq :
    (sig b : Bytes) (n : ℕ)
    → length b < 2 ^ 62
    → n < 2 ^ 32
    → decode_by_signature sig b n ≡ elim (stride_of sig) [
      | none ↦ err unsupported
      | some stride ↦ list_answer max_subkey_count 0 stride b n
    ]
unfolding decode_by_signature
by_signature_eq sig b n hb hn = ground (arith, decode_li-eq b n, decode_lf-eq b n)

subkey_list_long :
    (b : Bytes) (expected : ℕ)
    → 4 ≤ length b
    → peek 2 b 2 < 2 ^ 16
    → decode_subkey_list b expected
      ≡ decode_by_signature (take 2 b) (drop 4 b) (entry_count (peek 2 b 2) expected)
unfolding decode_subkey_list
subkey_list_long b expected h small =
    rw (checked_read_u16_in 2 b (omega arith) (omega arith)) (ground arith)

subkey_list_short :
    (b : Bytes) (expected : ℕ) → length b < 4 → decode_subkey_list b expected ≡ err truncated
unfolding decode_subkey_list
subkey_list_short b expected h = ground arith

-- What the decoder answers, in the order of its tests.
unfoldable pub subkey_answer : Bytes → ℕ → Outcome Error (List ℕ)
subkey_answer b n = if ltb (length b) 4 then err truncated else elim (stride_of (take 2 b)) [
  | none ↦ err unsupported
  | some stride ↦
      if leb (4 + n * stride) (length b) then ok (entries_at 4 stride b 0 n) else err list_bounds
]

pub decode_subkey_list-of_count :
    (b : Bytes) (expected : ℕ)
    → length b < 2 ^ 62
    → peek 2 b 2 < 2 ^ 16
    → decode_subkey_list b expected ≡ subkey_answer b (entry_count (peek 2 b 2) expected)
unfolding subkey_answer
decode_subkey_list-of_count b expected hb small =
    let n : ℕ = entry_count (peek 2 b 2) expected in
    ground (
      arith,
      length-drop 4 b,
      subkey_list_short b expected,
      subkey_list_long b expected,
      by_signature_eq (take 2 b) (drop 4 b) n,
      list_answer_behind 4 b n,
      list_answer_behind 8 b n,
    )

-- On a list below 2^62 bytes `DecodeSubkeyList` answers: truncated, without room for a header;
-- unsupported, under an unknown signature; a bounds error, if not every entry lies inside; and else
-- the offset of every entry, four bytes behind the header and four (LI) or eight (LF, LH) bytes
-- apart. A non-zero expectation below the stored count cuts the list.
pub decode_subkey_list-eq :
    (b : Bytes) (expected : ℕ)
    → length b < 2 ^ 62
    → All IsByte b
    → decode_subkey_list b expected ≡ (
        if ltb (length b) 4 then err truncated else elim (stride_of (take 2 b)) [
          | none ↦ err unsupported
          | some stride ↦
              if leb (4 + entry_count (peek 2 b 2) expected * stride) (length b)
              then ok (entries_at 4 stride b 0 (entry_count (peek 2 b 2) expected))
              else err list_bounds
        ])
unfolding subkey_answer
decode_subkey_list-eq b expected hb bytes =
    decode_subkey_list-of_count b expected hb (peek-lt 2 b 2 bytes)

decode_value_list-in :
    (b : Bytes) (n : ℕ)
    → length b < 2 ^ 62
    → n ≤ max_value_count
    → n * 4 ≤ length b
    → decode_value_list b n ≡ ok (entries_at 0 4 b 0 n)
unfolding decode_value_list entries_at
decode_value_list-in b zero hb hn h = refl
decode_value_list-in b (suc n) hb hn h = ground (
  arith,
  bounds_checked_lem (length b) 0 (suc n) 4,
  decode_entries_lem 0 4 b 0 (suc n) (omega arith),
)
