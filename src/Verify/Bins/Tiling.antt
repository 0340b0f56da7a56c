-- ===== src/Verify/Bins/Tiling.antt =====
-- That the checks come to an answer, and what a file that passes them looks like.
use hivekit.Common.{
  ℕ, zero, suc, ◌+◌, ◌≤◌, ◌<◌, ◌≡◌, refl, arith, Bool, true, false, Option, none, some, ok, err,
  panic, length,
}
use hivekit.Common.Bytes.{Bytes, peek}
use hivekit.Format.Consts.{header_size, hbin_header_size, hbin_size_offset}
use hivekit.Verify.Bins.{
  Result, regf_header, abs_i32, cell_tests, cells_loop, validate_hbin_cells, hbin_tests, then_go,
  hbin_loop, hbin_structure, file_size, all_invariants,
}

-- There is an answer: the fuel was enough.
abbrev pub answers : Option Result → Bool
answers none = false
answers (some r) = true

cell_tests-answers :
    (later : ℕ → Option Result) (hbin_end cell_pos size : ℕ)
    → ((pos : ℕ) → cell_pos < pos → answers (later pos) ≡ true)
    → answers (cell_tests later hbin_end cell_pos size) ≡ true
cell_tests-answers later hbin_end cell_pos size h = ground (arith, h (cell_pos + size))

cells_loop-answers :
    (fuel : ℕ) (b : Bytes) (hbin_end cell_pos : ℕ)
    → hbin_end < fuel + cell_pos
    → answers (cells_loop (suc fuel) b hbin_end cell_pos) ≡ true
unfolding cells_loop
cells_loop-answers zero b hbin_end cell_pos h = ground arith
cells_loop-answers (suc fuel) b hbin_end cell_pos h = ground (
  arith,
  cell_tests-answers (cells_loop (suc fuel) b hbin_end) hbin_end cell_pos
      (abs_i32 (peek 4 b cell_pos)) (λ pos k. cells_loop-answers fuel b hbin_end pos (omega arith)),
)

validate_hbin_cells-answers :
    (b : Bytes) (hbin_start hbin_size : ℕ)
    → answers (validate_hbin_cells b hbin_start hbin_size) ≡ true
unfolding validate_hbin_cells
validate_hbin_cells-answers b hbin_start hbin_size =
    cells_loop-answers hbin_size b (hbin_start + hbin_size) (hbin_start + hbin_header_size)
      (omega arith)

then_go-answers :
    (first later : Option Result)
    → answers first ≡ true
    → answers later ≡ true
    → answers (then_go first later) ≡ true
then_go-answers none later h k = h
then_go-answers (some (ok u)) later h k = k
then_go-answers (some (err e)) later h k = refl
then_go-answers (some panic) later h k = refl

-- A bin that passes its tests is not empty.
hbin_tests-moves :
    (b : Bytes) (pos : ℕ)
    → hbin_tests b pos ≡ ok tt
    → (0 < peek 4 b (pos + hbin_size_offset)) × (pos + peek 4 b (pos + hbin_size_offset) ≤ length b)
unfolding hbin_tests
hbin_tests-moves b pos h = ground arith

after_tests-answers :
    (tests : Result) (later : Option Result)
    → (tests ≡ ok tt → answers later ≡ true)
    → answers (then_go (some tests) later) ≡ true
after_tests-answers (ok u) later h = h refl
after_tests-answers (err e) later h = refl
after_tests-answers panic later h = refl

hbin_loop-answers :
    (fuel : ℕ) (b : Bytes) (pos hbin_count : ℕ)
    → length b < fuel + pos
    → answers (hbin_loop (suc fuel) b pos hbin_count) ≡ true
unfolding hbin_loop
hbin_loop-answers zero b pos hbin_count h = ground arith
hbin_loop-answers (suc fuel) b pos hbin_count h = ground (
  arith,
  after_tests-answers (hbin_tests b pos)
      (then_go (validate_hbin_cells b pos (peek 4 b (pos + hbin_size_offset)))
        (hbin_loop (suc fuel) b (pos + peek 4 b (pos + hbin_size_offset)) (suc hbin_count)))
      (λ passed.
        then_go-answers (validate_hbin_cells b pos (peek 4 b (pos + hbin_size_offset))) _
          (validate_hbin_cells-answers b pos (peek 4 b (pos + hbin_size_offset)))
          (hbin_loop-answers fuel b (pos + peek 4 b (pos + hbin_size_offset)) (suc hbin_count)
            (omega (arith, hbin_tests-moves b pos passed)))),
)

hbin_structure-answers : (b : Bytes) → answers (hbin_structure b) ≡ true
unfolding hbin_structure
hbin_structure-answers b = ground (arith, hbin_loop-answers (length b) b header_size 0)

-- AllInvariants comes to an answer on every buffer: the loops over the bins and over the cells of
-- each do not run out of fuel.
pub all_invariants-answers : (b : Bytes) → answers (all_invariants b) ≡ true
unfolding all_invariants
all_invariants-answers b =
    then_go-answers (some (regf_header b)) (then_go (hbin_structure b) (some (file_size b))) refl
      (then_go-answers (hbin_structure b) (some (file_size b)) (hbin_structure-answers b) refl)
