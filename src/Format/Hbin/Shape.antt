-- ===== src/Format/Hbin/Shape.antt =====
-- The readers of bins and cells, against the checks of hive/verify and against one another.
use hivekit.Common.{
  ℕ, ◌+◌, ◌-◌, ◌^◌, ◌≡◌, refl, sym, ap, ◌∙◌, arith, false, ◌||◌, Outcome, ok, err, panic,
  refuse-passes, refuse-ok, if-cases, inl, inr, take, drop, length, ltb, leb, ◌==◌,
}
use hivekit.Common.Bytes.{Bytes, peek, slice}
use hivekit.Common.Int.{ℤ}
use hivekit.Format.Consts.{Error, truncated, outside_hbin}
use hivekit.Common.Lists.{drop-drop, length-drop}
use hivekit.Format.Encoding.{outside}
use hivekit.Format.Hbin.{
  Hbin, Cell, new_cell, raw_size, cell_at, next_cell_at, next_cell_within, next_cell, parse_cell_of,
  parse_cell,
}

peek-drop : (k off : ℕ) (b : Bytes) → peek k (drop off b) 0 ≡ peek k b off
unfolding peek slice
peek-drop k off b = refl

slice-drop : (k off place : ℕ) (b : Bytes) → slice k place (drop off b) ≡ slice k (off + place) b
unfolding slice
slice-drop k off place b = ap (take k) (drop-drop off place b)

-- What the tests in front of a cell come to.
next_cell_at-ok :
    (b : Bytes) (h : Hbin) (off size next : ℕ) (c : Cell)
    → next_cell_at b h off size ≡ ok (c, next)
    → ((size == 0) ≡ false)
      × (ltb size 4 ≡ false)
      × (ltb (length b) (off + size) ≡ false)
      × (◌≡◌ {A = Outcome Error (Cell × ℕ)} (ok (cell_at b off size)) (ok (c, next)))
unfolding next_cell_at
next_cell_at-ok b h off size next c e =
    let zero_size = refuse-ok _ _ _ _ e in
    let small = refuse-ok _ _ _ _ zero_size.1 in
    let beyond = refuse-ok _ _ _ _ small.1 in
    elim (if-cases (ltb (length b) (off + size)) panic (ok (cell_at b off size)) (ok (c, next))
      beyond.1) [ inl (t, k) ↦ cc | inr (t, k) ↦ (zero_size.0, small.0, t, k) ]

parse_cell-passes :
    (b : Bytes) (off : ℕ)
    → (raw_size (peek 4 b off) == 0) ≡ false
    → ltb (raw_size (peek 4 b off)) 4 ≡ false
    → ltb (length b) (off + raw_size (peek 4 b off)) ≡ false
    → parse_cell (drop off b)
      ≡ ok (
          new_cell 0
            (raw_size (peek 4 b off))
            (ltb (peek 4 b off) (2 ^ 31))
            (slice (raw_size (peek 4 b off) - 4) (off + 4) b))
unfolding parse_cell parse_cell_of peek slice
parse_cell-passes b off z s l =
    let size : ℕ = raw_size (peek 4 b off) in
    let len = length-drop off b in
    let room : ltb (length (drop off b)) 4 ≡ false = ground (arith, len) in
    let held : (ltb size 4 || ltb (length (drop off b)) size) ≡ false = ground (arith, len) in
    refuse-passes _ _ _ room
    ∙ refuse-passes _ _ _ z
    ∙ refuse-passes _ _ _ held
    ∙ ap (λ p. ok (new_cell 0 size (ltb (peek 4 b off) (2 ^ 31)) p)) (slice-drop (size - 4) off 4 b)

-- A cell that NextCell returns is what ParseCell returns on the bytes from its offset on, except
-- for that offset; and the next cell starts where it ends.
next_cell-parse_cell :
    (b : Bytes) (h : Hbin) (off next : ℕ) (c : Cell)
    → next_cell b h (ℤ.pos off) ≡ ok (c, next)
    → (parse_cell (drop off b) ≡ ok (record c { offset = 0 })) × (next ≡ off + c.size)
unfolding next_cell next_cell_within
next_cell-parse_cell b h off next c e =
    let inside = refuse-ok (outside 4 b (ℤ.pos off)) truncated _ _ e in
    let window =
      refuse-ok (ltb off (h.file_offset + 32) || leb (h.file_offset + h.size) off) outside_hbin
        (next_cell_within b h off) (c, next) inside.1 in
    elim (if-cases (ltb (length b) (off + 4)) panic (next_cell_at b h off size) (ok (c, next))
      window.1) [
        | inl (u, l) ↦ cc
        | inr (u, l) ↦
            let found = next_cell_at-ok b h off size next c l in
            let cell : new_cell off size (ltb (peek 4 b off) (2 ^ 31))
                  (slice (size - 4) (off + 4) b)
                ≡ c =
              ap cell_of found.3 in
            (
              parse_cell-passes b off found.0 found.1 found.2 ∙ ap moved cell,
              sym (ap next_of found.3) ∙ ap (λ (d : Cell). off + d.size) cell,
            )
      ]
  where
    size : ℕ
    size = raw_size (peek 4 b off)

    moved : Cell → Outcome Error Cell
    moved d = ok (record d { offset = 0 })

    cell_of : Outcome Error (Cell × ℕ) → Cell
    cell_of (ok r) = r.0
    cell_of (err x) = c
    cell_of panic = c

    next_of : Outcome Error (Cell × ℕ) → ℕ
    next_of (ok r) = r.1
    next_of (err x) = next
    next_of panic = next
