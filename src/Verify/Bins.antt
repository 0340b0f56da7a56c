-- ===== src/Verify/Bins.antt =====
-- hive/verify/verify.go: the checks of the bins, of the cells in them and of the file's size. Every
-- read lies inside the buffer, by the test in front of it. A loop is on fuel and gives none when it
-- is out of it.
pub mod Tiling
pub mod Accepted
pub mod Header
use hivekit.Common.{
  ℕ, zero, suc, ◌+◌, ◌-◌, ◌%◌, ◌^◌, Bool, true, false, not, ◌||◌, Option, none, some, Outcome, ok,
  err, panic, ◌>>◌, refuse, length, ltb, leb, ◌==◌, if◌then◌else◌,
}
use hivekit.Common.Bytes.{Bytes, peek, slice}
use hivekit.Format.Consts.{
  bytes_equal, header_size, regf_signature, hbin_signature, hbin_header_size, hbin_alignment,
  cell_header_size, major_version_offset, minor_version_offset, data_size_offset,
  hbin_file_offset_field, hbin_size_offset,
}
use hivekit.Verify.{
  VerifyError, file_too_small, bad_signature, bad_major_version, bad_minor_version,
  unaligned_data_size, bad_hbin_signature, hbin_offset_mismatch, bad_hbin_size, hbin_beyond_file,
  no_hbins, cell_crosses_hbin, unaligned_cell, file_size_mismatch,
}

abbrev pub Result : Type 0
Result = Outcome VerifyError (Unit {0})

pub regf_header : Bytes → Result
unfolding bytes_equal
regf_header b = do
  refuse (ltb (length b) header_size) file_too_small
  refuse (not (bytes_equal (slice 4 0 b) regf_signature)) bad_signature
  refuse (not (peek 4 b major_version_offset == 1)) bad_major_version
  refuse (ltb (peek 4 b minor_version_offset) 3 || ltb 6 (peek 4 b minor_version_offset))
      bad_minor_version
  refuse (not (peek 4 b data_size_offset % hbin_alignment == 0)) unaligned_data_size

-- The absolute value of an int32, as a bit pattern: that of the least int32 is itself.
abbrev pub abs_i32 : ℕ → ℕ
abs_i32 w = if ltb w (2 ^ 31) then w else 2 ^ 32 - w

-- `size <= n` of an int32 and a small number.
abbrev pub at_most : ℕ → ℕ → Bool
at_most w n = leb (2 ^ 31) w || leb w n

-- The tests of a cell of that size, and what comes behind it.
abbrev pub cell_tests : (ℕ → Option Result) → ℕ → ℕ → ℕ → Option Result
cell_tests later hbin_end cell_pos size =
    if at_most size cell_header_size
    then some (ok tt)
    else if ltb hbin_end (cell_pos + size)
    then some (err cell_crosses_hbin)
    else if not (size % 8 == 0)
    then some (err unaligned_cell)
    else later (cell_pos + size)

-- The loop of validateHBINCells.
unfoldable pub cells_loop : ℕ → Bytes → ℕ → ℕ → Option Result
cells_loop zero b hbin_end cell_pos = none
cells_loop (suc fuel) b hbin_end cell_pos =
    if leb hbin_end cell_pos || ltb hbin_end (cell_pos + cell_header_size)
    then some (ok tt)
    else cell_tests (cells_loop fuel b hbin_end) hbin_end cell_pos (abs_i32 (peek 4 b cell_pos))

unfoldable pub validate_hbin_cells : Bytes → ℕ → ℕ → Option Result
unfolding cells_loop
validate_hbin_cells b hbin_start hbin_size =
    cells_loop (suc hbin_size) b (hbin_start + hbin_size) (hbin_start + hbin_header_size)

-- The tests of the header of a bin. The source's own test for the end of the file between them is
-- never met, since `pos` is below the length there.
unfoldable pub hbin_tests : Bytes → ℕ → Result
unfolding bytes_equal
hbin_tests b pos = do
  refuse (not (bytes_equal (slice 4 pos b) hbin_signature)) bad_hbin_signature
  refuse (not (peek 4 b (pos + hbin_file_offset_field) == pos - header_size)) hbin_offset_mismatch
  refuse
      ((peek 4 b (pos + hbin_size_offset) == 0)
        || not (peek 4 b (pos + hbin_size_offset) % hbin_alignment == 0))
      bad_hbin_size
  refuse (ltb (length b) (pos + peek 4 b (pos + hbin_size_offset))) hbin_beyond_file

-- What follows a test, or a loop, that passes.
abbrev pub then_go : Option Result → Option Result → Option Result
then_go none later = none
then_go (some (ok u)) later = later
then_go (some (err e)) later = some (err e)
then_go (some panic) later = some panic

-- What the function answers behind the loop.
abbrev at_end : ℕ → Option Result
at_end hbin_count = some (refuse (hbin_count == 0) no_hbins)

pub hbin_loop : ℕ → Bytes → ℕ → ℕ → Option Result
unfolding hbin_tests validate_hbin_cells
hbin_loop zero b pos hbin_count = none
hbin_loop (suc fuel) b pos hbin_count =
    let later = hbin_loop fuel b (pos + peek 4 b (pos + hbin_size_offset)) (suc hbin_count) in
    if leb (length b) pos || ltb (length b) (pos + hbin_header_size)
    then at_end hbin_count
    else then_go (some (hbin_tests b pos))
        (then_go (validate_hbin_cells b pos (peek 4 b (pos + hbin_size_offset))) later)

pub hbin_structure : Bytes → Option Result
unfolding hbin_loop
hbin_structure b =
    if ltb (length b) header_size
    then some (err file_too_small)
    else hbin_loop (suc (length b)) b header_size 0

pub file_size : Bytes → Result
file_size b = do
  refuse (ltb (length b) header_size) file_too_small
  refuse (not (length b == header_size + peek 4 b data_size_offset)) file_size_mismatch

unfoldable pub all_invariants : Bytes → Option Result
unfolding regf_header hbin_structure file_size
all_invariants b = then_go (some (regf_header b)) (then_go (hbin_structure b) (some (file_size b)))
