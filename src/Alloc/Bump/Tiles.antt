-- ===== src/Alloc/Bump/Tiles.antt =====
-- Allocated cells tile the bump region.
use hivekit.Common.{
  ℕ, zero, suc, ◌+◌, ◌%◌, ◌^◌, ◌≤◌, ◌<◌, ◌≡◌, sym, ap, ◌∙◌, subst, arith, some, ok, length,
}
use hivekit.Common.Bytes.{Bytes, peek, le_bytes, le_value, slice-poke_above, peek-of_slice}
use hivekit.Format.Encoding.Laws.{peek-poke_self}
use hivekit.Alloc.{put}
use hivekit.Verify.Bins.{abs_i32, cells_loop}
use hivekit.Verify.Bins.Accepted.{cell_size}

-- Cells from a position to an end, with nothing left over.
pub data CellsTile (b : Bytes) (end : ℕ) : ℕ → Type 0 where
  done : {pos : ℕ} → pos ≡ end → CellsTile b end pos
  cell :
      {pos : ℕ}
      → 8 ≤ cell_size b pos
      → cell_size b pos < 2 ^ 31
      → cell_size b pos % 8 ≡ 0
      → pos + cell_size b pos ≤ end
      → CellsTile b end (pos + cell_size b pos)
      → CellsTile b end pos

-- What is tiled passes the checks.
pub CellsTile-passes :
    (fuel : ℕ) (b : Bytes) (end pos : ℕ)
    → CellsTile b end pos
    → end < fuel + pos
    → cells_loop fuel b end pos ≡ some (ok tt)
unfolding cells_loop
CellsTile-passes zero b end pos t h =
    absurd (elim t [ done e ↦ omega arith | cell s w m i r ↦ omega arith ])
CellsTile-passes (suc fuel) b end pos (done e) h = ground arith
CellsTile-passes (suc fuel) b end pos (cell s w m i r) h =
    ground (arith, CellsTile-passes fuel b end (pos + cell_size b pos) r (omega arith))

-- A header written at or behind the end of a cell leaves that cell's size.
pub peek-put_above :
    (b : Bytes) (off v pos : ℕ) → pos + 4 ≤ off → peek 4 (put off v b) pos ≡ peek 4 b pos
peek-put_above b off v pos h =
    peek-of_slice 4 (put off v b) pos
    ∙ ap le_value (slice-poke_above (le_bytes 4 v) off b 4 pos h)
    ∙ sym (peek-of_slice 4 b pos)

-- One more cell at the end.
pub CellsTile-put :
    (b : Bytes) (end v pos : ℕ)
    → CellsTile b end pos
    → v < 2 ^ 32
    → end + 4 ≤ length b
    → 8 ≤ abs_i32 v
    → abs_i32 v < 2 ^ 31
    → abs_i32 v % 8 ≡ 0
    → CellsTile (put end v b) (end + abs_i32 v) pos
CellsTile-put b end v pos (done e) hv l s w m =
    let here : peek 4 (put end v b) pos ≡ v =
      subst (λ p. peek 4 (put end v b) p ≡ v) (sym e) (peek-poke_self 4 v end b hv l) in
    let size : cell_size (put end v b) pos ≡ abs_i32 v = ap abs_i32 here in
    CellsTile.cell (omega (arith, size)) (omega (arith, size)) (ap (λ n. n % 8) size ∙ m)
      (omega (arith, size)) (CellsTile.done (omega (arith, size)))
CellsTile-put b end v pos (cell s' w' m' i' r) hv l s w m =
    let size : cell_size (put end v b) pos ≡ cell_size b pos =
      ap abs_i32 (peek-put_above b end v pos (omega arith)) in
    CellsTile.cell (omega (arith, size)) (omega (arith, size)) (ap (λ n. n % 8) size ∙ m')
      (omega (arith, size))
      (subst (λ n. CellsTile (put end v b) (end + abs_i32 v) (pos + n)) (sym size)
        (CellsTile-put b end v (pos + cell_size b pos) r hv l s w m))
