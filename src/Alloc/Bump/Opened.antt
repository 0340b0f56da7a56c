-- ===== src/Alloc/Bump/Opened.antt =====
-- The bin that EnableBumpMode opens, and what it is when the mode is over.
use hivekit.Common.{
  ℕ, zero, suc, ◌+◌, ◌-◌, ◌%◌, ◌^◌, ◌≤◌, ◌<◌, ◌≡◌, refl, sym, ap, ◌∙◌, subst, arith, true, false,
  ◌||◌, ok, length, ltb, if-both,
}
use hivekit.Common.Lists.{length-append}
use hivekit.Common.Int.{ℤ, ltb_ℤ, ◌+ℤ◌}
use hivekit.Common.Bytes.{
  Bytes, peek, slice, poke, le_bytes, le_value, length-poke, length-le_bytes, slice-poke_above,
  slice-poke_below, slice-poke_self, peek-of_slice,
}
use hivekit.Format.Consts.{
  header_size, hbin_header_size, hbin_signature, hbin_file_offset_field, hbin_size_offset,
  data_size_offset, checksum_offset,
}
use hivekit.Format.Encoding.{to_int32}
use hivekit.Format.Encoding.Laws.{peek-poke_self}
use hivekit.Alloc.{
  Allocator, is_negative, max_hive_size, put, update_header_checksum, bump_data_size, zeros,
  append_zeros, hbin_stores, grown, grow_by_hbin_size,
}
use hivekit.Alloc.Bump.{bump_region}
use hivekit.Alloc.Bump.Tiles.{CellsTile}
use hivekit.Alloc.Bump.Region.{InBump}
use hivekit.Alloc.Bump.Finish.{inserted-buffer}

pub length-zeros : (n : ℕ) → length (zeros n) ≡ n
unfolding zeros
length-zeros zero = refl
length-zeros (suc n) = ap suc (length-zeros n)

length-put : (off v : ℕ) (b : Bytes) → length (put off v b) ≡ length b
length-put off v b = length-poke (le_bytes 4 v) off b

-- A write in the header page leaves the pages behind it.
abbrev SameBehind : Bytes → Bytes → Type 0
SameBehind b b' =
    (length b' ≡ length b) × ((k place : ℕ) → 4096 ≤ place → slice k place b' ≡ slice k place b)

put-SameBehind : (off v : ℕ) (b : Bytes) → off + 4 ≤ 4096 → SameBehind b (put off v b)
put-SameBehind off v b h = (
  length-put off v b,
  λ k place i. slice-poke_below (le_bytes 4 v) off b k place (omega (arith, length-le_bytes 4 v)),
)

bump_data_size-SameBehind : (delta : ℕ) (b : Bytes) → SameBehind b (bump_data_size delta b)
unfolding bump_data_size
bump_data_size-SameBehind delta b =
    if-both (SameBehind b) (ltb (length b) header_size) (λ e. (refl, λ k place i. refl))
      (λ e. put-SameBehind data_size_offset _ b (omega arith))

update_header_checksum-SameBehind : (b : Bytes) → SameBehind b (update_header_checksum b)
unfolding update_header_checksum
update_header_checksum-SameBehind b =
    if-both (SameBehind b) (ltb (length b) header_size) (λ e. (refl, λ k place i. refl))
      (λ e. put-SameBehind checksum_offset _ b (omega arith))

abbrev page_writes : ℕ → Bytes → Bytes
page_writes delta b = update_header_checksum (bump_data_size delta b)

page_writes-SameBehind : (delta : ℕ) (b : Bytes) → SameBehind b (page_writes delta b)
page_writes-SameBehind delta b =
    let p = bump_data_size-SameBehind delta b in
    let q = update_header_checksum-SameBehind (bump_data_size delta b) in
    (q.0 ∙ p.0, λ k place i. q.1 k place i ∙ p.1 k place i)

slice-peek :
    (b b' : Bytes) (place : ℕ)
    → slice 4 place b' ≡ slice 4 place b
    → peek 4 b' place ≡ peek 4 b place
slice-peek b b' place e = peek-of_slice 4 b' place ∙ ap le_value e ∙ sym (peek-of_slice 4 b place)

-- The header of a bin of that size at that place.
pub record HasHeader (b : Bytes) (off size : ℕ) : Type 0 where
  pub signed : slice 4 off b ≡ hbin_signature
  pub offset : peek 4 b (off + hbin_file_offset_field) ≡ off - header_size
  pub sized : peek 4 b (off + hbin_size_offset) ≡ size

-- It is there behind anything that keeps its twelve bytes.
pub HasHeader-kept :
    (b b' : Bytes) (off size : ℕ)
    → ((k place : ℕ) → off ≤ place → place + k ≤ off + 32 → slice k place b' ≡ slice k place b)
    → HasHeader b off size
    → HasHeader b' off size
HasHeader-kept b b' off size h x = record {
  signed = h 4 off (omega arith) (omega arith) ∙ x.signed;
  offset = slice-peek b b' (off + 4) (h 4 (off + 4) (omega arith) (omega arith)) ∙ x.offset;
  sized = slice-peek b b' (off + 8) (h 4 (off + 8) (omega arith) (omega arith)) ∙ x.sized;
}

module _ (b : Bytes) (off size : ℕ) (room : off + 36 ≤ length b) (small : off < 2 ^ 32)
    (narrow : size < 2 ^ 32) where
  abbrev b1 : Bytes
  b1 = poke hbin_signature off b

  abbrev b2 : Bytes
  b2 = put (off + 4) (off - header_size) b1

  abbrev b3 : Bytes
  b3 = put (off + 8) size b2

  len1 : length b1 ≡ length b
  len1 = length-poke hbin_signature off b

  len2 : length b2 ≡ length b
  len2 = length-put (off + 4) (off - header_size) b1 ∙ len1

  header3 : HasHeader b3 off size
  header3 = record {
    signed =
        slice-poke_above (le_bytes 4 size) (off + 8) b2 4 off (omega arith)
        ∙ slice-poke_above (le_bytes 4 (off - header_size)) (off + 4) b1 4 off (omega arith)
        ∙ slice-poke_self hbin_signature off b (omega arith);
    offset =
        slice-peek b2 b3 (off + 4)
          (slice-poke_above (le_bytes 4 size) (off + 8) b2 4 (off + 4) (omega arith))
        ∙ peek-poke_self 4 (off - header_size) (off + 4) b1 (omega arith) (omega (arith, len1));
    sized = peek-poke_self 4 size (off + 8) b2 (omega arith) (omega (arith, len2));
  }

  hbin_stores-HasHeader : HasHeader (hbin_stores off size b) off size
  unfolding hbin_stores
  hbin_stores-HasHeader =
      HasHeader-kept b3 (put (off + 32) (size - hbin_header_size) b3) off size
        (λ k place h i.
          slice-poke_above (le_bytes 4 (size - hbin_header_size)) (off + 32) b3 k place i)
        header3

  pub length-hbin_stores : length (hbin_stores off size b) ≡ length b
  unfolding hbin_stores
  length-hbin_stores =
      length-put (off + 32) (size - hbin_header_size) b3 ∙ length-put (off + 8) size b2 ∙ len2

to_int32-small : (x : ℕ) → x < 2 ^ 31 → to_int32 x ≡ ℤ.pos x
to_int32-small x h = ground arith

small_sum :
    (x y : ℕ) → x + y < 2 ^ 31 → ltb_ℤ (ℤ.pos max_hive_size) (to_int32 x +ℤ to_int32 y) ≡ false
unfolding ◌+ℤ◌
small_sum x y h = rw (to_int32-small x (omega arith), to_int32-small y (omega arith)) (ground arith)

module _ (a : Allocator) (size : ℕ) (page : 4096 ≤ length a.buffer) (large : 36 ≤ size)
    (fits : length a.buffer + size < 2 ^ 31) where
  abbrev pub file_end : ℕ
  file_end = length a.buffer

  abbrev pub longer : Bytes
  longer = append_zeros size a.buffer

  abbrev pub opened : Allocator
  opened = grown file_end size (record a { buffer = longer })

  pub length-longer : length longer ≡ file_end + size
  unfolding append_zeros
  length-longer =
      if-both (λ (b : Bytes). length b ≡ file_end + size) (is_negative size) (λ e. ground arith)
        (λ e. length-append a.buffer (zeros size) ∙ ap (λ n. file_end + n) (length-zeros size))

  pub grow_by_hbin_size-opens : grow_by_hbin_size true size a ≡ ok opened
  unfolding grow_by_hbin_size
  grow_by_hbin_size-opens =
      let here : file_end % 2 ^ 32 ≡ file_end = omega arith in
      let e : ltb_ℤ (ℤ.pos max_hive_size) (to_int32 file_end +ℤ to_int32 size) ≡ false =
        small_sum file_end size fits in
      let f : (is_negative file_end || ltb (length longer) (file_end + hbin_header_size + 4))
          ≡ false =
        ground (arith, length-longer) in
      rw (here, e, f) refl

  opened-buffer : opened.buffer ≡ page_writes size (hbin_stores file_end size longer)
  unfolding grown
  opened-buffer = ap (page_writes size) (inserted-buffer (file_end + 32) (size - 32) _)

  pub opened-HasHeader : HasHeader opened.buffer file_end size
  opened-HasHeader =
      let stores =
        hbin_stores-HasHeader longer file_end size (omega (arith, length-longer)) (omega arith)
          (omega arith) in
      subst (λ b. HasHeader b file_end size) (sym opened-buffer)
        (HasHeader-kept (hbin_stores file_end size longer) _ file_end size
          (λ k place h i.
            (page_writes-SameBehind size (hbin_stores file_end size longer)).1 k place
              (omega arith))
          stores)

  pub length-opened : length opened.buffer ≡ file_end + size
  length-opened =
      ap (λ b. length b) opened-buffer
      ∙ (page_writes-SameBehind size (hbin_stores file_end size longer)).0
      ∙ length-hbin_stores longer file_end size (omega (arith, length-longer)) (omega arith)
          (omega arith)
      ∙ length-longer

  abbrev pub ready : Allocator
  ready = record opened { bump = bump_region file_end size }

  pub ready-InBump : size % 4096 ≡ 0 → InBump ready
  ready-InBump pages =
      let start : (file_end + 32) % 2 ^ 32 ≡ file_end + 32 = omega arith in
      let capacity : (size + 2 ^ 32 - 32) % 2 ^ 32 ≡ size - 32 = omega arith in
      record {
        active = refl;
        whole = omega (arith, capacity, pages);
        moved = omega arith;
        within = omega arith;
        inside = omega (arith, start, capacity, length-opened);
        small = omega (arith, start, capacity);
        tiled = CellsTile.done (omega arith);
      }
