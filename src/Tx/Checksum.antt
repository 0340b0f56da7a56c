-- ===== src/Tx/Checksum.antt =====
-- The header checksum of tx.go against the one of verify.go.
use Prim.Native.Nat.{bit_xor}
use hivekit.Common.{
  ℕ, zero, suc, ◌+◌, ◌*◌, ◌%◌, ◌^◌, ◌≤◌, ◌<◌, ◌≡◌, refl, sym, ◌∙◌, ap, inl, arith, length, ok, ltb,
  not, ◌==◌, ◌>>◌, refuse,
}
use hivekit.Common.Bytes.{Bytes, peek, poke, le_bytes, length-poke}
use hivekit.Format.Consts.{header_size, checksum_offset}
use hivekit.Format.Encoding.Laws.{peek-poke_self, peek-poke_apart}
use hivekit.Verify.{file_too_small, checksum_mismatch, checksum, checksum_loop}
use hivekit.Tx.{xor_dwords, calculate_header_checksum}

-- Counting dwords and counting bytes comes to the same.
checksum_loop-eq : (b : Bytes) (i n acc : ℕ) → checksum_loop b (i * 4) n acc ≡ xor_dwords b i n acc
unfolding checksum_loop xor_dwords
checksum_loop-eq b i zero acc = refl
checksum_loop-eq b i (suc n) acc =
    ap (λ j. checksum_loop b j n (bit_xor acc (peek 4 b (i * 4)) % 2 ^ 32)) (omega arith)
    ∙ checksum_loop-eq b (i + 1) n (bit_xor acc (peek 4 b (i * 4)) % 2 ^ 32)

xor_dwords-lt : (b : Bytes) (i n acc : ℕ) → acc < 2 ^ 32 → xor_dwords b i n acc < 2 ^ 32
unfolding xor_dwords
xor_dwords-lt b i zero acc h = h
xor_dwords-lt b i (suc n) acc h = xor_dwords-lt b (i + 1) n _ (omega arith)

-- A word written behind the region does not count.
xor_dwords-poke :
    (b : Bytes) (v off i n acc : ℕ)
    → (i + n) * 4 ≤ off
    → xor_dwords (poke (le_bytes 4 v) off b) i n acc ≡ xor_dwords b i n acc
unfolding xor_dwords
xor_dwords-poke b v off i zero acc h = refl
xor_dwords-poke b v off i (suc n) acc h =
    rw (peek-poke_apart 4 4 v off (i * 4) b (inl (omega arith)))
      (xor_dwords-poke b v off (i + 1) n _ (omega arith))

passes :
    (n c : ℕ)
    → header_size ≤ n
    → (do refuse (ltb n header_size) file_too_small; refuse (not (c == c)) checksum_mismatch)
      ≡ ok tt
passes n c h = ground arith

-- A header that is sealed with its own checksum passes the check.
pub checksum-sealed :
    (b : Bytes)
    → header_size ≤ length b
    → checksum (poke (le_bytes 4 (calculate_header_checksum b)) checksum_offset b) ≡ ok tt
unfolding checksum calculate_header_checksum
checksum-sealed b h =
    let c : ℕ = calculate_header_checksum b in
    let sealed : Bytes = poke (le_bytes 4 c) checksum_offset b in
    let whole : c ≡ xor_dwords b 0 127 0 = ground arith in
    let same : checksum_loop sealed 0 127 0 ≡ c =
      checksum_loop-eq sealed 0 127 0
      ∙ xor_dwords-poke b c checksum_offset 0 127 0 (omega arith)
      ∙ sym whole in
    let stored : peek 4 sealed checksum_offset ≡ c =
      peek-poke_self 4 c checksum_offset b (rw whole (xor_dwords-lt b 0 127 0 (omega arith)))
        (omega arith) in
    rw (same, stored, length-poke (le_bytes 4 c) checksum_offset b) (passes (length b) c h)
