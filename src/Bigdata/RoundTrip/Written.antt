-- ===== src/Bigdata/RoundTrip/Written.antt =====
-- A big value in its cells, as the writers of hive/bigdata fill them: each cell has its size rounded
-- up to eight bytes, the word in front included.
use hivekit.Common.{
  ℕ, ◌+◌, ◌*◌, ◌^◌, ◌≤◌, ◌<◌, ◌≡◌, refl, ap, arith, List, [], ◌∷◌, ◌++◌, Option, some, length, drop,
  ok, length-append, length-drop,
}
use hivekit.Common.Bytes.{Bytes, slice, length-slice, overwrite}
use hivekit.Format.Align.{align8}
use hivekit.Bigdata.{max_block_size, write_blocklist, write_db_header}
use hivekit.Bigdata.Headers.{AllU32}
use hivekit.Bigdata.Writer.Need.{block_len}

overwrite-eq-append :
    (src buf : Bytes) → length src ≤ length buf → overwrite src buf ≡ src ++ drop (length src) buf
overwrite-eq-append [] buf h = refl
overwrite-eq-append (x ∷ src) [] h = absurd (omega arith)
overwrite-eq-append (x ∷ src) (y ∷ buf) h =
    ap (λ t. x ∷ t) (overwrite-eq-append src buf (omega arith))

-- A block with what is behind it in its cell.
abbrev pub IsPadded : Bytes → Bytes → Type 0
IsPadded src out = (pad : Bytes) × (out ≡ src ++ pad) × (length out + 4 ≡ align8 (length src + 4))

pub overwrite-IsPadded :
    (src buf : Bytes) → length buf + 4 ≡ align8 (length src + 4) → IsPadded src (overwrite src buf)
overwrite-IsPadded src buf h =
    let e = overwrite-eq-append src buf (omega (arith, h)) in
    (
      drop (length src) buf,
      e,
      omega (
        arith,
        ap length e,
        length-append src (drop (length src) buf),
        length-drop (length src) buf,
        h,
      ),
    )

-- Block `i` of a value.
abbrev pub block : ℕ → Bytes → Bytes
block i src = slice (block_len i (length src)) (i * max_block_size) src

pub length-block :
    (i : ℕ) (src : Bytes)
    → i * max_block_size ≤ length src
    → length (block i src) ≡ block_len i (length src)
length-block i src h =
    length-slice (block_len i (length src)) (i * max_block_size) src (omega arith)

module _ (payload : ℕ → Option Bytes) where
  -- The cells that hold the blocks, from block `i` on: each was a buffer of the size of its cell, over
  -- the start of which the block was copied.
  abbrev pub HoldBlocks : List ℕ → ℕ → Bytes → Type 0
  HoldBlocks [] i src = Unit {0}
  HoldBlocks (ref ∷ refs) i src =
      ((buf : Bytes) × (payload ref ≡ some (overwrite (block i src) buf))
        × (length buf + 4 ≡ align8 (length (block i src) + 4)))
      × HoldBlocks refs (i + 1) src

  -- A value of `n` blocks: the blocks, their list as writeBlocklist fills its cell, and the header as
  -- writeDBHeader fills the cell that has the bytes `header`.
  pub record HoldsValue (n : ℕ) (src header : Bytes) : Type 0 where
    pub refs : List ℕ
    pub count : length refs ≡ n
    pub refs_small : AllU32 refs
    pub blocks : HoldBlocks refs 0 src
    pub blocklist_ref : ℕ
    pub blocklist_small : blocklist_ref < 2 ^ 32
    pub list_buf : Bytes
    pub list_room : n * 4 ≤ length list_buf
    pub list_out : Bytes
    pub list_written : write_blocklist list_buf refs ≡ ok list_out
    pub list_here : payload blocklist_ref ≡ some list_out
    pub header_buf : Bytes
    pub header_room : 12 ≤ length header_buf
    pub header_written : write_db_header header_buf n blocklist_ref ≡ ok header
