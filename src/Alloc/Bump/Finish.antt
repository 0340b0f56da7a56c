-- ===== src/Alloc/Bump/Finish.antt =====
-- The end of the bump mode: the region is tiled to its end.
use mathlib.Core.List.{append-nil}
use hivekit.Common.{
  ℕ, ◌+◌, ◌-◌, ◌%◌, ◌^◌, ◌≤◌, ◌<◌, ◌≡◌, refl, sym, ap, ◌∙◌, subst, arith, false, ◌||◌, ◌&&◌, not,
  ok, length, ltb, ◌==◌, List, [], ◌∷◌, ◌++◌, if◌then◌else◌, Bool-cases, if-both, inl, inr,
}
use hivekit.Common.Bytes.{slice, le_bytes, length-poke, slice-poke_above}
use hivekit.Format.Consts.{header_size, hbin_header_size, cell_header_size}
use hivekit.Alloc.{Allocator, is_negative, min_cell_size, put, insert_free_cell}
use hivekit.Verify.Bins.{abs_i32}
use hivekit.Alloc.Bump.{finalize_bump_mode, trailing, no_bump}
use hivekit.Alloc.Bump.Tiles.{CellsTile, CellsTile-put}
use hivekit.Alloc.Bump.Region.{InBump}
use hivekit.Alloc.Bump.Laid.{Laid, Laid-put, free_words}
use hivekit.Alloc.Bump.Words.{LaidUp, room_of}

-- The region behind FinalizeBumpMode: tiled to its end, and the mode is off.
pub record Finished (a a' : Allocator) : Type 0 where
  pub returns : finalize_bump_mode a ≡ ok a'
  pub off : a'.bump ≡ no_bump
  pub len : length a'.buffer ≡ length a.buffer
  pub front :
      (k pos : ℕ) → pos + k ≤ a.bump.start_off → slice k pos a'.buffer ≡ slice k pos a.buffer
  pub tiled : CellsTile a'.buffer (a.bump.start_off + a.bump.capacity) a.bump.start_off
  pub laid :
      (words : List ℕ)
      → LaidUp a words
      → Laid a'.buffer
          (words ++ free_words (room_of a))
          a.bump.start_off
          (a.bump.start_off + a.bump.capacity)

pub inserted-buffer :
    (off size : ℕ) (x : Allocator) → (insert_free_cell off size x).buffer ≡ x.buffer
unfolding insert_free_cell
inserted-buffer off size x =
    if-both (λ (y : Allocator). y.buffer ≡ x.buffer)
      (is_negative off
        || ltb off (header_size + hbin_header_size)
        || (not (is_negative ((off + size) % 2 ^ 32))
            && ltb (length x.buffer) ((off + size) % 2 ^ 32)))
      (λ e. refl) (λ e. refl)

trailing-buffer :
    (off size : ℕ) (x : Allocator) → (trailing off size x).buffer ≡ put off size x.buffer
unfolding trailing
trailing-buffer off size x = inserted-buffer off size _

module _ (a : Allocator) (inv : InBump a) where
  abbrev left : ℕ
  left = a.bump.capacity - a.bump.cursor

  abbrev trail : ℕ
  trail = a.bump.start_off + a.bump.cursor

  left-eq : (a.bump.capacity + 2 ^ 32 - a.bump.cursor) % 2 ^ 32 ≡ left
  left-eq = omega (arith, inv.small, inv.within)

  trail-eq : (a.bump.start_off + a.bump.cursor) % 2 ^ 32 ≡ trail
  trail-eq = omega (arith, inv.small, inv.within)

  full-Finished : left ≡ 0 → Finished a (record a { bump = no_bump })
  unfolding finalize_bump_mode
  full-Finished none_left = record {
    returns = rw (inv.active, left-eq, none_left) refl;
    off = refl;
    len = refl;
    front = λ k pos h. refl;
    tiled =
        subst (λ end. CellsTile a.buffer end a.bump.start_off) (omega (arith, inv.within))
          inv.tiled;
    laid = λ words laid.
        subst (λ ws. Laid a.buffer ws a.bump.start_off (a.bump.start_off + a.bump.capacity))
          (sym (append-nil words) ∙ ap (λ n. words ++ free_words n) (sym none_left))
          (subst (λ end. Laid a.buffer words a.bump.start_off end) (omega (arith, inv.within))
            laid);
  }

  rest-Laid :
      (words : List ℕ)
      → 8 ≤ left
      → LaidUp a words
      → Laid
          (put trail left a.buffer)
          (words ++ free_words left)
          a.bump.start_off
          (a.bump.start_off + a.bump.capacity)
  rest-Laid words some_left laid =
      let size : abs_i32 left ≡ left = ground (arith, inv.small) in
      let some : (left == 0) ≡ false = ground arith in
      subst
        (λ ws.
          Laid (put trail left a.buffer) ws a.bump.start_off (a.bump.start_off + a.bump.capacity))
        (ap (λ t. words ++ (if t then [] else left ∷ [])) (sym some))
        (subst (λ end. Laid (put trail left a.buffer) (words ++ left ∷ []) a.bump.start_off end)
          (omega (arith, size))
          (Laid-put a.buffer words a.bump.start_off trail left laid (omega (arith, inv.small))
            (omega (arith, inv.inside)) (omega (arith, size))))

  rest-Finished : 8 ≤ left → Finished a (record (trailing trail left a) { bump = no_bump })
  unfolding finalize_bump_mode
  rest-Finished some_left =
      let e : (is_negative left || ltb left min_cell_size) ≡ false = ground (arith, inv.small) in
      let f : (is_negative trail || ltb (length a.buffer) (trail + cell_header_size)) ≡ false =
        ground (arith, inv.small, inv.inside, inv.within) in
      let size : abs_i32 left ≡ left = ground (arith, inv.small) in
      record {
        returns = rw (inv.active, left-eq, trail-eq, e, f) refl;
        off = refl;
        len =
            ap (λ b. length b) (trailing-buffer trail left a)
            ∙ length-poke (le_bytes 4 left) trail a.buffer;
        front = λ k pos h.
            ap (slice k pos) (trailing-buffer trail left a)
            ∙ slice-poke_above (le_bytes 4 left) trail a.buffer k pos (omega arith);
        tiled =
            subst (λ b. CellsTile b (a.bump.start_off + a.bump.capacity) a.bump.start_off)
              (sym (trailing-buffer trail left a))
              (subst (λ end. CellsTile (put trail left a.buffer) end a.bump.start_off)
                (omega (arith, size))
                (CellsTile-put a.buffer trail left a.bump.start_off inv.tiled
                  (omega (arith, inv.small)) (omega (arith, inv.inside)) (omega (arith, size))
                  (omega (arith, size, inv.small))
                  (ap (λ n. n % 8) size ∙ omega (arith, inv.whole, inv.moved))));
        laid = λ words laid.
            subst
              (λ b.
                Laid b (words ++ free_words left) a.bump.start_off
                  (a.bump.start_off + a.bump.capacity))
              (sym (trailing-buffer trail left a)) (rest-Laid words some_left laid);
      }

  pub finalize_bump_mode-Finished : (a' : Allocator) × Finished a a'
  finalize_bump_mode-Finished = elim (Bool-cases (left == 0)) [
    | inl e ↦ (record a { bump = no_bump }, full-Finished (ground arith))
    | inr e ↦ (
      record (trailing trail left a) { bump = no_bump },
      rest-Finished (
          let d : (left == 0) ≡ false = e in
          let p : 0 < left = ground arith in omega (arith, inv.whole, inv.moved, inv.within)),
    )
  ]
