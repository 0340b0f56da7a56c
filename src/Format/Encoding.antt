-- ===== src/Format/Encoding.antt =====
-- internal/format/encoding.go: words in a buffer. Out of bounds the unchecked calls panic and the
-- checked ones return ErrBoundsCheck. A buffer's capacity is taken to be its length.
pub mod Laws
use hivekit.Common.{
  ℕ, ◌+◌, ◌-◌, Bool, ◌^◌, ◌%◌, ◌||◌, length, Outcome, ok, err, panic, ltb, leb, if◌then◌else◌, [],
  ◌∷◌, List, ◌>>=◌,
}
use hivekit.Common.Bytes.{Bytes, peek, poke, le_bytes}
use hivekit.Common.Int.{ℤ, pos, negsuc, ltb_ℤ}
use hivekit.Buf.{add_int, zero_int}
use hivekit.Format.Consts.{Error, bounds_check}

-- binary.LittleEndian.UintN(b[off : off+k])
read_word : ℕ → Bytes → ℤ → Outcome Error ℕ
read_word k b (negsuc off) = panic
read_word k b (pos off) = if leb (off + k) (length b) then ok (peek k b off) else panic

-- binary.LittleEndian.PutUintN(b[off : off+k], v)
put_word : ℕ → Bytes → ℤ → ℕ → Outcome Error Bytes
put_word k b (negsuc off) v = panic
put_word k b (pos off) v =
    if leb (off + k) (length b) then ok (poke (le_bytes k v) off b) else panic

-- The test of every checked function.
abbrev pub outside : ℕ → Bytes → ℤ → Bool
outside k b off = ltb_ℤ off zero_int || ltb_ℤ (pos (length b)) (add_int off (pos k))

-- An int32 from its bit pattern, and back.
abbrev pub to_int32 : ℕ → ℤ
to_int32 w = if ltb w (2 ^ 31) then pos w else negsuc (2 ^ 32 - w - 1)

abbrev pub of_int32 : ℤ → ℕ
of_int32 (pos n) = n
of_int32 (negsuc n) = 2 ^ 32 - n - 1

read_u16 : Bytes → ℤ → Outcome Error ℕ
read_u16 = read_word 2

read_u32 : Bytes → ℤ → Outcome Error ℕ
read_u32 = read_word 4

read_i32 : Bytes → ℤ → Outcome Error ℤ
read_i32 b off = do w ← read_word 4 b off; ok (to_int32 w)

read_u64 : Bytes → ℤ → Outcome Error ℕ
read_u64 = read_word 8

put_u16 : Bytes → ℤ → ℕ → Outcome Error Bytes
put_u16 = put_word 2

put_u32 : Bytes → ℤ → ℕ → Outcome Error Bytes
put_u32 = put_word 4

put_i32 : Bytes → ℤ → ℤ → Outcome Error Bytes
put_i32 b off v = put_word 4 b off (of_int32 v)

put_u64 : Bytes → ℤ → ℕ → Outcome Error Bytes
put_u64 = put_word 8

pub checked_read_u16 : Bytes → ℤ → Outcome Error ℕ
unfolding read_word
checked_read_u16 b off = if outside 2 b off then err bounds_check else read_word 2 b off

pub checked_read_u32 : Bytes → ℤ → Outcome Error ℕ
unfolding read_word
checked_read_u32 b off = if outside 4 b off then err bounds_check else read_word 4 b off

pub checked_read_i32 : Bytes → ℤ → Outcome Error ℤ
unfolding read_word
checked_read_i32 b off =
    if outside 4 b off then err bounds_check else do w ← read_word 4 b off; ok (to_int32 w)

pub checked_read_u64 : Bytes → ℤ → Outcome Error ℕ
unfolding read_word
checked_read_u64 b off = if outside 8 b off then err bounds_check else read_word 8 b off

checked_put_u16 : Bytes → ℤ → ℕ → Outcome Error Bytes
unfolding put_word
checked_put_u16 b off v = if outside 2 b off then err bounds_check else put_word 2 b off v

pub checked_put_u32 : Bytes → ℤ → ℕ → Outcome Error Bytes
unfolding put_word
checked_put_u32 b off v = if outside 4 b off then err bounds_check else put_word 4 b off v

pub checked_put_i32 : Bytes → ℤ → ℤ → Outcome Error Bytes
unfolding put_word
checked_put_i32 b off v =
    if outside 4 b off then err bounds_check else put_word 4 b off (of_int32 v)

checked_put_u64 : Bytes → ℤ → ℕ → Outcome Error Bytes
unfolding put_word
checked_put_u64 b off v = if outside 8 b off then err bounds_check else put_word 8 b off v
