-- ===== src/Tests/BigValues.antt =====
-- Big values of one block in three cells.
use hivekit.Common.{
  ℕ, zero, suc, ◌+◌, ◌^◌, ◌<◌, ◌≡◌, refl, ap, arith, true, false, [], ◌∷◌, Option, none, some,
  length, ok, err, ltb, ◌==◌, if◌then◌else◌, inr,
}
use hivekit.Common.Bytes.{Bytes, slice, overwrite}
use hivekit.Format.Stores.{run}
use hivekit.Format.Consts.{size_mismatch, bad_block_count}
use hivekit.Format.Align.{align8}
use hivekit.Alloc.{zeros}
use hivekit.Bigdata.{
  write_blocklist, write_db_header, read_db_header, decode_db, is_db_record, parse_db,
}
use hivekit.Bigdata.Headers.{header_round_trip}
use hivekit.Bigdata.Writer.{calculate_total_need}
use hivekit.Bigdata.Writer.Need.{value_need, calculate_total_need-eq}
use hivekit.Bigdata.Reader.{value_db}
use hivekit.Bigdata.RoundTrip.{value_db-written, value_db-written_lossy}
use hivekit.Bigdata.RoundTrip.Turns.{cells_of}
use hivekit.Bigdata.RoundTrip.Written.{block, HoldsValue}

length-zeros : (n : ℕ) → length (zeros n) ≡ n
unfolding zeros
length-zeros zero = refl
length-zeros (suc n) = ap suc (length-zeros n)

abbrev five_bytes : Bytes
five_bytes = 1 ∷ 2 ∷ 3 ∷ 4 ∷ 5 ∷ []

abbrev nine_bytes : Bytes
nine_bytes = 1 ∷ 2 ∷ 3 ∷ 4 ∷ 5 ∷ 6 ∷ 7 ∷ 8 ∷ 9 ∷ []

-- The block at 32, and the list at 64.
abbrev block_cell : Bytes → Bytes
block_cell src = overwrite (block 0 src) (zeros 12)

abbrev list_cell : Bytes
list_cell = 32 ∷ 0 ∷ 0 ∷ 0 ∷ zeros 8

abbrev cells_with : Bytes → ℕ → Option Bytes
cells_with src ref =
    if ref == 32 then some (block_cell src) else if ref == 64 then some list_cell else none

abbrev header_cell : Bytes
header_cell = b'd' ∷ b'b' ∷ 1 ∷ 0 ∷ 64 ∷ 0 ∷ 0 ∷ 0 ∷ 0 ∷ 0 ∷ 0 ∷ 0 ∷ []

holds :
    (src : Bytes)
    → length (zeros 12) + 4 ≡ align8 (length (block 0 src) + 4)
    → HoldsValue (cells_with src) 1 src header_cell
unfolding write_blocklist write_db_header zeros run
holds src sized = record {
  refs = 32 ∷ [];
  count = refl;
  refs_small = (omega arith, tt);
  blocks = ((zeros 12, refl, sized), tt);
  blocklist_ref = 64;
  blocklist_small = omega arith;
  list_buf = zeros 12;
  list_room = omega arith;
  list_out = list_cell;
  list_written = refl;
  list_here = refl;
  header_buf = zeros 12;
  header_room = omega arith;
  header_written = refl;
}

value_db-written_example :
    value_db (cells_of (cells_with five_bytes)) true header_cell 5 ≡ ok five_bytes
value_db-written_example =
    value_db-written (cells_with five_bytes) 1 five_bytes header_cell (omega arith, omega arith)
      (omega arith) (omega arith) (holds five_bytes (unfold slice zeros in refl))
      (inr (omega arith)) true

value_db-written_lossy_example :
    (value_db (cells_of (cells_with nine_bytes)) false header_cell 9 ≡ err size_mismatch)
    × ((r : Bytes) × (value_db (cells_of (cells_with nine_bytes)) true header_cell 9 ≡ ok r)
        × (length r < 9))
value_db-written_lossy_example =
    value_db-written_lossy (cells_with nine_bytes) 1 nine_bytes header_cell
      (omega arith, omega arith) (omega arith) (holds nine_bytes (unfold slice zeros in refl))
      (omega arith) (omega arith)

header_round_trip_example :
    (out : Bytes) × (write_db_header (zeros 16) 2 4128 ≡ ok out)
    × (read_db_header out
        ≡ ok (record { signature = (b'd', b'b'); count = 2; blocklist = 4128; reserved = 0 }))
    × (decode_db out ≡ ok (record { num_blocks = 2; blocklist_offset = 4128; unknown1 = 0 }))
    × (is_db_record out ≡ true)
    × (parse_db out ≡ (if ltb 2 2 then err bad_block_count else ok out))
header_round_trip_example =
    header_round_trip (zeros 16) 2 4128 (omega (arith, length-zeros 16)) (omega arith) (omega arith)

calculate_total_need-eq_example :
    (calculate_total_need 2 nine_bytes 1 ≡ some (value_need 1 9)) × (value_need 1 9 < 2 ^ 31)
calculate_total_need-eq_example =
    calculate_total_need-eq 2 1 nine_bytes (omega arith, omega arith) (omega arith) (omega arith)
