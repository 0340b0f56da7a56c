-- ===== src/Format/Encoding/Laws.antt =====
-- Round trips, framing and totality of the word accessors.
use hivekit.Common.{
  ℕ, ◌+◌, ◌-◌, ◌^◌, ◌≤◌, ◌<◌, ◌≡◌, ◌⊎◌, ◌↔◌, ◌∙◌, inl, inr, arith, length, ok, err, panic, ltb,
  if◌then◌else◌, ap,
}
use hivekit.Common.Bytes.{
  Bytes, slice, peek, poke, le_value, le_bytes, length-poke, length-le_bytes, le_value-le_bytes,
  slice-poke_self, slice-poke_below, slice-poke_above,
}
use hivekit.Common.Int.{ℤ, pos, negsuc, ◌+ℤ◌, ◌≤ℤ◌, wrap_int}
use hivekit.Format.Consts.{bounds_check}
use hivekit.Format.Encoding.{
  outside, checked_read_u16, checked_read_u32, checked_read_u64, checked_read_i32, checked_put_u32,
  checked_put_i32, to_int32, of_int32,
}

-- At a small offset the sum in the bounds test does not wrap.
pub outside_small :
    (k off : ℕ) (b : Bytes) → off + k < 2 ^ 63 → outside k b (pos off) ≡ ltb (length b) (off + k)
unfolding ◌+ℤ◌ wrap_int
outside_small k off b h = ground arith

module _ (off : ℕ) (b : Bytes) (h : off < 2 ^ 62) where
  pub checked_read_u16_small :
      checked_read_u16 b (pos off)
      ≡ (if ltb (length b) (off + 2) then err bounds_check else ok (peek 2 b off))
  unfolding checked_read_u16
  checked_read_u16_small = rw (outside_small 2 off b (omega arith)) (ground arith)

  pub checked_read_u32_small :
      checked_read_u32 b (pos off)
      ≡ (if ltb (length b) (off + 4) then err bounds_check else ok (peek 4 b off))
  unfolding checked_read_u32
  checked_read_u32_small = rw (outside_small 4 off b (omega arith)) (ground arith)

  checked_read_u64_small :
      checked_read_u64 b (pos off)
      ≡ (if ltb (length b) (off + 8) then err bounds_check else ok (peek 8 b off))
  unfolding checked_read_u64
  checked_read_u64_small = rw (outside_small 8 off b (omega arith)) (ground arith)

  -- Where the buffer is long enough the read returns its word.
  pub checked_read_u16_in : off + 2 ≤ length b → checked_read_u16 b (pos off) ≡ ok (peek 2 b off)
  checked_read_u16_in fits = rw checked_read_u16_small (ground arith)

  pub checked_read_u32_in : off + 4 ≤ length b → checked_read_u32 b (pos off) ≡ ok (peek 4 b off)
  checked_read_u32_in fits = rw checked_read_u32_small (ground arith)

  pub checked_read_u64_in : off + 8 ≤ length b → checked_read_u64 b (pos off) ≡ ok (peek 8 b off)
  checked_read_u64_in fits = rw checked_read_u64_small (ground arith)

-- A word survives its encoding, and the other words of the buffer stay.
pub peek-poke_self :
    (k v off : ℕ) (b : Bytes)
    → v < 256 ^ k
    → off + k ≤ length b
    → peek k (poke (le_bytes k v) off b) off ≡ v
unfolding peek
peek-poke_self k v off b hv h =
    let same : slice (length (le_bytes k v)) off (poke (le_bytes k v) off b) ≡ le_bytes k v =
      slice-poke_self (le_bytes k v) off b (rw (length-le_bytes k v) h) in
    ap le_value (rw (length-le_bytes k v) at same) ∙ le_value-le_bytes k v hv

pub peek-poke_apart :
    (k n v off j : ℕ) (b : Bytes)
    → (j + n ≤ off) ⊎ (off + k ≤ j)
    → peek n (poke (le_bytes k v) off b) j ≡ peek n b j
unfolding peek
peek-poke_apart k n v off j b (inl h) = ap le_value (slice-poke_above (le_bytes k v) off b n j h)
peek-poke_apart k n v off j b (inr h) =
    ap le_value (slice-poke_below (le_bytes k v) off b n j (rw (length-le_bytes k v) h))

checked_put_u32-eq_ok :
    (b b' : Bytes) (off v : ℕ)
    → off < 2 ^ 62
    → checked_put_u32 b (pos off) v ≡ ok b'
    → (off + 4 ≤ length b) × (b' ≡ poke (le_bytes 4 v) off b)
unfolding checked_put_u32 ◌+ℤ◌ wrap_int
checked_put_u32-eq_ok b b' off v h e = ground arith

checked_put_i32-eq_ok :
    (b b' : Bytes) (off : ℕ) (v : ℤ)
    → off < 2 ^ 62
    → checked_put_i32 b (pos off) v ≡ ok b'
    → (off + 4 ≤ length b) × (b' ≡ poke (le_bytes 4 (of_int32 v)) off b)
unfolding checked_put_i32 ◌+ℤ◌ wrap_int
checked_put_i32-eq_ok b b' off v h e = ground arith

of_int32-lt : (v : ℤ) → negsuc (2 ^ 31 - 1) ≤ℤ v → v ≤ℤ pos (2 ^ 31 - 1) → of_int32 v < 2 ^ 32
of_int32-lt (pos n) lo hi = omega arith
of_int32-lt (negsuc n) lo hi = omega arith

to_int32-of_int32 :
    (v : ℤ) → negsuc (2 ^ 31 - 1) ≤ℤ v → v ≤ℤ pos (2 ^ 31 - 1) → to_int32 (of_int32 v) ≡ v
to_int32-of_int32 (pos n) lo hi = ground arith
to_int32-of_int32 (negsuc n) lo hi = ground arith

checked_read_i32_small :
    (off : ℕ) (b : Bytes)
    → off < 2 ^ 62
    → checked_read_i32 b (pos off)
      ≡ (if ltb (length b) (off + 4) then err bounds_check else ok (to_int32 (peek 4 b off)))
unfolding checked_read_i32
checked_read_i32_small off b h = rw (outside_small 4 off b (omega arith)) (ground arith)

-- After a checked write of a uint32 that returns, at an offset below 2^62, the checked read at that
-- offset returns the value, the buffer's length stays, and so does the checked read of any uint32
-- below 2^62 that does not overlap.
checked_put_u32_lem :
    (b b' : Bytes) (off v j : ℕ)
    → off < 2 ^ 62
    → v < 2 ^ 32
    → j < 2 ^ 62
    → (j + 4 ≤ off) ⊎ (off + 4 ≤ j)
    → checked_put_u32 b (pos off) v ≡ ok b'
    → (checked_read_u32 b' (pos off) ≡ ok v)
      × (length b' ≡ length b)
      × (checked_read_u32 b' (pos j) ≡ checked_read_u32 b (pos j))
checked_put_u32_lem b b' off v j ho hv hj apart e =
    let (fits, same) = checked_put_u32-eq_ok b b' off v ho e in
    (
      rw (same, checked_read_u32_small off (poke (le_bytes 4 v) off b) ho, length-poke)
          (ground (arith, peek-poke_self 4 v off b)),
      rw same (length-poke (le_bytes 4 v) off b),
      rw
          (
            same,
            checked_read_u32_small j (poke (le_bytes 4 v) off b) hj,
            checked_read_u32_small j b hj,
            length-poke,
          )
          (ground (arith, peek-poke_apart 4 4 v off j b apart)),
    )

-- An int32 survives the checked write of its bit pattern, when that returns at an offset below
-- 2^62, and the checked read there.
checked_put_i32_lem :
    (b b' : Bytes) (off : ℕ) (v : ℤ)
    → off < 2 ^ 62
    → negsuc (2 ^ 31 - 1) ≤ℤ v
    → v ≤ℤ pos (2 ^ 31 - 1)
    → checked_put_i32 b (pos off) v ≡ ok b'
    → checked_read_i32 b' (pos off) ≡ ok v
checked_put_i32_lem b b' off v ho lo hi e =
    let (fits, same) = checked_put_i32-eq_ok b b' off v ho e in
    rw
      (
        same,
        checked_read_i32_small off _ ho,
        length-poke,
        peek-poke_self 4 (of_int32 v) off b (of_int32-lt v lo hi) fits,
        to_int32-of_int32 v lo hi,
      )
      (ground arith)

-- On a buffer below 2^62 bytes a checked read at a non-negative int offset panics exactly where the
-- sum in its own bounds test wraps around.
checked_read_u32_panics_iff :
    (b : Bytes) (off : ℕ)
    → length b < 2 ^ 62
    → off < 2 ^ 63
    → (checked_read_u32 b (pos off) ≡ panic) ↔ (2 ^ 63 ≤ off + 4)
unfolding checked_read_u32 ◌+ℤ◌ wrap_int
checked_read_u32_panics_iff b off hb ho = ground arith
