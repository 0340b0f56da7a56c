-- ===== src/Tests/Bins.antt =====
-- hive/verify and hive/alloc at concrete inputs: a file of one bin, and a bin that the bump mode opens.
use hivekit.Common.{
  false, ◌+◌, ◌-◌, ◌^◌, ◌≤◌, ◌≡◌, refl, arith, [], ◌∷◌, ◌++◌, true, some, ok, length,
}
use hivekit.Common.Bytes.{Bytes, peek, slice, le_bytes}
use hivekit.Dirty.{new_tracker}
use hivekit.Format.Consts.{regf_signature, hbin_signature, header_size, data_size_offset}
use hivekit.Format.Hbin.{Hbin, Cell, next_cell}
use hivekit.Common.Int.{ℤ, wrap_int, ◌+ℤ◌}
use hivekit.Format.Regf.{Header, parse_header}
use hivekit.Verify.Bins.Header.{all_invariants-parse_header}
use hivekit.Verify.Bins.{all_invariants}
use hivekit.Verify.Bins.Tiling.{answers, all_invariants-answers}
use hivekit.Verify.Bins.Accepted.{BinsTile, all_invariants-BinsTile}
use hivekit.Alloc.{Allocator, zeros}
use hivekit.Alloc.Bump.{no_bump}
use hivekit.Alloc.Bump.Opened.{length-zeros}
use hivekit.Alloc.Bump.Whole.{Requested}
use hivekit.Alloc.Bump.Overlap.{Overlaps, allocated_stays_free}

-- A header page, version 1.5, and a bin of one page with one allocated cell of 16 bytes.
abbrev header_page : Bytes
header_page =
    regf_signature
    ++ (zeros 16
        ++ (le_bytes 4 1 ++ (le_bytes 4 5 ++ (zeros 12 ++ (le_bytes 4 4096 ++ zeros 4052)))))

abbrev one_bin : Bytes
one_bin =
    hbin_signature
    ++ (le_bytes 4 0 ++ (le_bytes 4 4096 ++ (zeros 20 ++ (le_bytes 4 (2 ^ 32 - 16) ++ zeros 4060))))

abbrev test_file : Bytes
test_file = header_page ++ one_bin

test_file-valid : all_invariants test_file ≡ some (ok tt)
unfolding all_invariants zeros slice peek
test_file-valid = refl

all_invariants-answers_example : answers (all_invariants test_file) ≡ true
all_invariants-answers_example = all_invariants-answers test_file

all_invariants-BinsTile_example :
    (length test_file ≡ header_size + peek 4 test_file data_size_offset)
    × BinsTile test_file header_size
all_invariants-BinsTile_example = all_invariants-BinsTile test_file test_file-valid

-- An allocator over a header page alone.
abbrev new_allocator : Allocator
new_allocator = record { buffer = zeros 4096; dt = new_tracker; bump = no_bump; free = [] }

asked : Requested new_allocator 100
asked = (refl, omega (arith, length-zeros 4096), omega arith, omega (arith, length-zeros 4096))

allocated_stays_free_example : Overlaps new_allocator 100 20
allocated_stays_free_example =
    allocated_stays_free new_allocator 100 20 asked (omega arith, omega arith) (omega arith)

-- One allocated cell of sixteen bytes behind the place of a header.
abbrev one_cell : Bytes
one_cell = zeros 32 ++ (le_bytes 4 (2 ^ 32 - 16) ++ (b'n' ∷ b'k' ∷ zeros 10))

abbrev small_hbin : Hbin
small_hbin = record { file_offset = 0; size = 48 }

abbrev nk_cell : Cell
nk_cell = record {
  offset = 32;
  size = 16;
  free = false;
  tag = (b'n', b'k');
  payload = b'n' ∷ b'k' ∷ zeros 10;
}

one_cell-found : next_cell one_cell small_hbin (ℤ.pos 32) ≡ ok (nk_cell, 48)
unfolding next_cell zeros slice peek wrap_int ◌+ℤ◌
one_cell-found = refl

all_invariants-parse_header_example :
    (h : Header) × (parse_header test_file ≡ ok h)
    × (length test_file ≡ header_size + h.hive_bins_data_size)
    × (h.major_version ≡ 1)
    × (3 ≤ h.minor_version)
    × (h.minor_version ≤ 6)
all_invariants-parse_header_example = all_invariants-parse_header test_file test_file-valid
