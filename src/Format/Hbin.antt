-- ===== src/Format/Hbin.antt =====
-- internal/format/hbin.go and cell.go: a bin's header and the cells of a bin.
pub mod Shape
use hivekit.Common.{
  ℕ, ◌+◌, ◌-◌, ◌%◌, ◌^◌, Bool, true, false, not, ◌||◌, Outcome, ok, err, panic, ◌>>◌, refuse,
  length, ltb, leb, ◌==◌, if◌then◌else◌,
}
use hivekit.Common.Bytes.{Bytes, peek, slice}
use hivekit.Common.Int.{ℤ, pos, negsuc}
use hivekit.Format.Consts.{
  Error, truncated, signature_mismatch, invalid_size, zero_length, outside_hbin, too_small,
  bytes_equal, hbin_signature, hbin_header_size, hbin_alignment, hbin_file_offset_field,
  hbin_size_offset, cell_header_size,
}
use hivekit.Format.Encoding.{outside}

-- An HBIN.
pub record Hbin : Type 0 where
  pub file_offset : ℕ
  pub size : ℕ

-- The bin that starts inside the buffer, and the offset behind it.
pub hbin_at : Bytes → ℕ → Outcome Error (Hbin × ℕ)
unfolding bytes_equal
hbin_at b off = do
  refuse (not (bytes_equal (slice 4 off b) hbin_signature)) signature_mismatch
  refuse
      ((peek 4 b (off + hbin_size_offset) == 0)
        || not (peek 4 b (off + hbin_size_offset) % hbin_alignment == 0))
      invalid_size
  refuse (ltb (length b) (off + peek 4 b (off + hbin_size_offset))) truncated
  ok (
    record {
      file_offset = peek 4 b (off + hbin_file_offset_field);
      size = peek 4 b (off + hbin_size_offset);
    },
    off + peek 4 b (off + hbin_size_offset),
  )

-- NextHBIN. The sum in its test may wrap around, and then the slice panics.
pub next_hbin : Bytes → ℤ → Outcome Error (Hbin × ℕ)
unfolding hbin_at
next_hbin b (negsuc n) = err truncated
next_hbin b (pos off) =
    if outside hbin_header_size b (pos off)
    then err truncated
    else if ltb (length b) (off + hbin_header_size)
    then panic
    else hbin_at b off

-- A Cell. The tag is the first two bytes of the payload, or two zeros.
pub record Cell : Type 0 where
  pub offset : ℕ
  pub size : ℕ
  pub free : Bool
  pub tag : ℕ × ℕ
  pub payload : Bytes

abbrev tag_of : Bytes → ℕ × ℕ
tag_of payload = if leb 2 (length payload) then (peek 1 payload 0, peek 1 payload 1) else (0, 0)

abbrev pub new_cell : ℕ → ℕ → Bool → Bytes → Cell
new_cell offset size free payload = record {
  offset = offset;
  size = size;
  free = free;
  tag = tag_of payload;
  payload = payload;
}

-- The size of a cell by its header: the absolute value of an int32, as an int.
abbrev pub raw_size : ℕ → ℕ
raw_size w = if ltb w (2 ^ 31) then w else 2 ^ 32 - w

-- The cell of that size, and the offset behind it.
abbrev pub cell_at : Bytes → ℕ → ℕ → Cell × ℕ
cell_at b off size = (
  new_cell off size (ltb (peek 4 b off) (2 ^ 31))
      (slice (size - cell_header_size) (off + cell_header_size) b),
  off + size,
)

-- The payload is a slice of the buffer: out of bounds it panics.
abbrev cell_or_panic : Bytes → ℕ → ℕ → Outcome Error (Cell × ℕ)
cell_or_panic b off size = if ltb (length b) (off + size) then panic else ok (cell_at b off size)

-- NextCell behind the read of the header, with the size of the cell.
pub next_cell_at : Bytes → Hbin → ℕ → ℕ → Outcome Error (Cell × ℕ)
next_cell_at b h off size = do
  refuse (size == 0) zero_length
  refuse (ltb size cell_header_size) too_small
  refuse (ltb (h.file_offset + h.size) (off + size)) truncated
  cell_or_panic b off size

-- The read of the header, which panics out of bounds.
pub next_cell_within : Bytes → Hbin → ℕ → Outcome Error (Cell × ℕ)
unfolding next_cell_at
next_cell_within b h off =
    if ltb (length b) (off + cell_header_size)
    then panic
    else next_cell_at b h off (raw_size (peek 4 b off))

-- NextCell.
unfoldable pub next_cell : Bytes → Hbin → ℤ → Outcome Error (Cell × ℕ)
unfolding next_cell_within
next_cell b h (negsuc n) = err truncated
next_cell b h (pos off) = do
  refuse (outside cell_header_size b (pos off)) truncated
  refuse (ltb off (h.file_offset + hbin_header_size) || leb (h.file_offset + h.size) off)
      outside_hbin
  next_cell_within b h off

-- ParseCell behind its first test, with the size of the cell.
pub parse_cell_of : Bytes → ℕ → Outcome Error Cell
parse_cell_of b size = do
  refuse (size == 0) zero_length
  refuse (ltb size cell_header_size || ltb (length b) size) truncated
  ok (
      new_cell 0 size (ltb (peek 4 b 0) (2 ^ 31))
        (slice (size - cell_header_size) cell_header_size b))

pub parse_cell : Bytes → Outcome Error Cell
unfolding parse_cell_of
parse_cell b = do
  refuse (ltb (length b) cell_header_size) truncated
  parse_cell_of b (raw_size (peek 4 b 0))
