-- ===== src/Verify/Bins/Accepted.antt =====
-- What a file that passes the checks looks like.
use hivekit.Common.{
  ℕ, zero, suc, ◌+◌, ◌-◌, ◌%◌, ◌≤◌, ◌<◌, ◌≡◌, ◌⊎◌, refl, arith, true, not, ◌||◌, Option, none, some,
  ok, err, panic, length, ltb, leb, ◌==◌, if-cases, inl, inr,
}
use hivekit.Common.Bytes.{Bytes, peek, slice}
use hivekit.Format.Consts.{
  bytes_equal, header_size, hbin_signature, hbin_header_size, hbin_alignment, cell_header_size,
  data_size_offset, hbin_file_offset_field, hbin_size_offset,
}
use hivekit.Verify.Bins.{
  Result, regf_header, abs_i32, at_most, cell_tests, cells_loop, validate_hbin_cells, hbin_tests,
  then_go, hbin_loop, hbin_structure, file_size, all_invariants,
}

abbrev pub cell_size : Bytes → ℕ → ℕ
cell_size b pos = abs_i32 (peek 4 b pos)

-- Cells of whole eight bytes, one behind the other and none beyond the end, up to a size that ends
-- the list or to the end.
pub data CellsFit (b : Bytes) (hbin_end : ℕ) : ℕ → Type 0 where
  full : {pos : ℕ} → hbin_end < pos + 4 → CellsFit b hbin_end pos
  stop : {pos : ℕ} → at_most (cell_size b pos) 4 ≡ true → CellsFit b hbin_end pos
  cell :
      {pos : ℕ}
      → 8 ≤ cell_size b pos
      → cell_size b pos % 8 ≡ 0
      → pos + cell_size b pos ≤ hbin_end
      → CellsFit b hbin_end (pos + cell_size b pos)
      → CellsFit b hbin_end pos

abbrev pub hbin_size : Bytes → ℕ → ℕ
hbin_size b pos = peek 4 b (pos + hbin_size_offset)

-- A bin at a position: it has the signature and its own offset, whole pages, and its cells fit.
pub record IsBin (b : Bytes) (pos : ℕ) : Type 0 where
  pub signature : bytes_equal (slice 4 pos b) hbin_signature ≡ true
  pub offset : peek 4 b (pos + hbin_file_offset_field) ≡ pos - header_size
  pub size : 0 < hbin_size b pos
  pub pages : hbin_size b pos % hbin_alignment ≡ 0
  pub inside : pos + hbin_size b pos ≤ length b
  pub cells : CellsFit b (pos + hbin_size b pos) (pos + hbin_header_size)

-- Bins one behind the other up to the end of the file.
pub data BinsTile (b : Bytes) : ℕ → Type 0 where
  last : {pos : ℕ} → pos ≡ length b → BinsTile b pos
  bin : {pos : ℕ} → IsBin b pos → BinsTile b (pos + hbin_size b pos) → BinsTile b pos

cell_tests-ok :
    (later : ℕ → Option Result) (b : Bytes) (hbin_end pos : ℕ)
    → cell_tests later hbin_end pos (cell_size b pos) ≡ some (ok tt)
    → (at_most (cell_size b pos) 4 ≡ true)
      ⊎ ((8 ≤ cell_size b pos)
          × (cell_size b pos % 8 ≡ 0)
          × (pos + cell_size b pos ≤ hbin_end)
          × (later (pos + cell_size b pos) ≡ some (ok tt)))
cell_tests-ok later b hbin_end pos h = elim (if-cases (at_most (cell_size b pos) 4) _ _ _ h) [
  | inl (e, k) ↦ inl e
  | inr (e, k) ↦ elim (if-cases (ltb hbin_end (pos + cell_size b pos)) _ _ _ k) [
    | inl (f, l) ↦ cc
    | inr (f, l) ↦ elim (if-cases (not (cell_size b pos % 8 == 0)) _ _ _ l) [
      | inl (g, m) ↦ cc
      | inr (g, m) ↦ inr (ground arith, ground arith, ground arith, m)
    ]
  ]
]

pub cells_loop-CellsFit :
    (fuel : ℕ) (b : Bytes) (hbin_end pos : ℕ)
    → cells_loop fuel b hbin_end pos ≡ some (ok tt)
    → CellsFit b hbin_end pos
unfolding cells_loop
cells_loop-CellsFit zero b hbin_end pos h = cc
cells_loop-CellsFit (suc fuel) b hbin_end pos h =
    elim (if-cases (leb hbin_end pos || ltb hbin_end (pos + cell_header_size)) _ _ _ h) [
      | inl (e, k) ↦ CellsFit.full (ground arith)
      | inr (e, k) ↦ elim (cell_tests-ok (cells_loop fuel b hbin_end) b hbin_end pos k) [
        | inl s ↦ CellsFit.stop s
        | inr (s, m, i, l) ↦
            CellsFit.cell s m i (cells_loop-CellsFit fuel b hbin_end (pos + cell_size b pos) l)
      ]
    ]

pub then_go-ok :
    (first later : Option Result)
    → then_go first later ≡ some (ok tt)
    → (first ≡ some (ok tt)) × (later ≡ some (ok tt))
then_go-ok none later h = cc
then_go-ok (some (ok u)) later h = (refl, h)
then_go-ok (some (err e)) later h = cc
then_go-ok (some panic) later h = cc

-- A bin from its tests.
pub hbin_tests-IsBin :
    (b : Bytes) (pos : ℕ)
    → some (hbin_tests b pos) ≡ some (ok tt)
    → validate_hbin_cells b pos (hbin_size b pos) ≡ some (ok tt)
    → IsBin b pos
unfolding hbin_tests validate_hbin_cells
hbin_tests-IsBin b pos h c = record {
  signature = ground arith;
  offset = ground arith;
  size = ground arith;
  pages = ground arith;
  inside = ground arith;
  cells =
      cells_loop-CellsFit (suc (hbin_size b pos)) b (pos + hbin_size b pos) (pos + hbin_header_size)
        c;
}

hbin_loop-BinsTile :
    (fuel : ℕ) (b : Bytes) (pos hbin_count : ℕ)
    → pos % hbin_alignment ≡ 0
    → length b % hbin_alignment ≡ 0
    → pos ≤ length b
    → hbin_loop fuel b pos hbin_count ≡ some (ok tt)
    → BinsTile b pos
unfolding hbin_loop
hbin_loop-BinsTile zero b pos hbin_count p l i h = cc
hbin_loop-BinsTile (suc fuel) b pos hbin_count p l i h =
    elim (if-cases (leb (length b) pos || ltb (length b) (pos + hbin_header_size)) _ _ _ h) [
      | inl (e, k) ↦ BinsTile.last (ground arith)
      | inr (e, k) ↦
          let tests = then_go-ok (some (hbin_tests b pos)) _ k in
          let cells = then_go-ok (validate_hbin_cells b pos (hbin_size b pos)) _ tests.1 in
          let found = hbin_tests-IsBin b pos tests.0 cells.0 in
          BinsTile.bin found (
            hbin_loop-BinsTile fuel b (pos + hbin_size b pos) (suc hbin_count)
              (omega (arith, found.pages)) l found.inside cells.1)
    ]

hbin_structure-BinsTile :
    (b : Bytes)
    → length b % hbin_alignment ≡ 0
    → hbin_structure b ≡ some (ok tt)
    → BinsTile b header_size
unfolding hbin_structure
hbin_structure-BinsTile b l h = elim (if-cases (ltb (length b) header_size) _ _ _ h) [
  | inl (e, k) ↦ cc
  | inr (e, k) ↦
      hbin_loop-BinsTile (suc (length b)) b header_size 0 (omega arith) l (ground arith) k
]

sizes-agree :
    (b : Bytes)
    → some (regf_header b) ≡ some (ok tt)
    → some (file_size b) ≡ some (ok tt)
    → (length b ≡ header_size + peek 4 b data_size_offset) × (length b % hbin_alignment ≡ 0)
unfolding regf_header file_size
sizes-agree b h k =
    let size : length b ≡ header_size + peek 4 b data_size_offset = ground arith in
    let pages : peek 4 b data_size_offset % hbin_alignment ≡ 0 = ground arith in (size, omega arith)

-- A file that AllInvariants accepts is its header page and as many bytes more as the header says,
-- and bins tile it from the end of that page to its own end: each bin has the signature, its own
-- offset and whole pages, and its cells fit.
pub all_invariants-BinsTile :
    (b : Bytes)
    → all_invariants b ≡ some (ok tt)
    → (length b ≡ header_size + peek 4 b data_size_offset) × BinsTile b header_size
unfolding all_invariants
all_invariants-BinsTile b h =
    let header = then_go-ok (some (regf_header b)) _ h in
    let bins = then_go-ok (hbin_structure b) (some (file_size b)) header.1 in
    let sizes = sizes-agree b header.0 bins.1 in (sizes.0, hbin_structure-BinsTile b sizes.1 bins.0)
