-- ===== src/Alloc/Bump/Region.antt =====
-- The bump region, from one allocation to the next.
use hivekit.Common.{
  ℕ, ◌+◌, ◌-◌, ◌%◌, ◌^◌, ◌≤◌, ◌<◌, ◌≡◌, refl, sym, ap, ◌∙◌, subst, arith, List, [], ◌∷◌, All, true,
  false, ◌||◌, Option, none, Outcome, ok, ◌>>=◌, length, ltb, leb, Bool-cases, inl, inr,
}
use hivekit.Common.Bytes.{slice, le_bytes, length-poke, slice-poke_above}
use hivekit.Format.Consts.{cell_header_size}
use hivekit.Format.Align.{align8_i32, align8_i32_lem}
use hivekit.Alloc.{Allocator, AllocError, is_negative, greater_i32, put}
use hivekit.Verify.Bins.{abs_i32}
use hivekit.Alloc.Bump.{bump_alloc, served, Allocated}
use hivekit.Alloc.Bump.Tiles.{CellsTile, CellsTile-put}

-- The state between two allocations: the allocated cells tile the region up to the cursor.
pub record InBump (a : Allocator) : Type 0 where
  pub active : a.bump.active ≡ true
  pub whole : a.bump.capacity % 8 ≡ 0
  pub moved : a.bump.cursor % 8 ≡ 0
  pub within : a.bump.cursor ≤ a.bump.capacity
  pub inside : a.bump.start_off + a.bump.capacity ≤ length a.buffer
  pub small : a.bump.start_off + a.bump.capacity < 2 ^ 31
  pub tiled : CellsTile a.buffer (a.bump.start_off + a.bump.cursor) a.bump.start_off

-- The same region, and the same bytes in front of it.
pub record SameRegion (a a' : Allocator) : Type 0 where
  pub start : a'.bump.start_off ≡ a.bump.start_off
  pub capacity : a'.bump.capacity ≡ a.bump.capacity
  pub len : length a'.buffer ≡ length a.buffer
  pub front :
      (k pos : ℕ) → pos + k ≤ a.bump.start_off → slice k pos a'.buffer ≡ slice k pos a.buffer

-- A request that is rounded up without an overflow, also when it is added to the cursor.
abbrev pub Fits : ℕ → ℕ → Type 0
Fits capacity need = (4 ≤ need) × (need + 7 + capacity < 2 ^ 31)

module _ (a : Allocator) (inv : InBump a) (need : ℕ) (fits : Fits a.bump.capacity need) where
  pub bump_alloc-served :
      a.bump.cursor + align8_i32 need ≤ a.bump.capacity
      → bump_alloc need a ≡ ok (served (a.bump.start_off + a.bump.cursor) (align8_i32 need) a)
  unfolding bump_alloc
  bump_alloc-served room =
      let up = align8_i32_lem need (omega (arith, fits)) in
      let off : (a.bump.start_off + a.bump.cursor) % 2 ^ 32 ≡ a.bump.start_off + a.bump.cursor =
        omega (arith, inv.small, inv.within) in
      let e : greater_i32 ((a.bump.cursor + align8_i32 need) % 2 ^ 32) a.bump.capacity ≡ false =
        ground (arith, inv.small) in
      let f : (is_negative (a.bump.start_off + a.bump.cursor)
            || is_negative (align8_i32 need)
            || ltb (align8_i32 need) cell_header_size
            || ltb (length a.buffer) (a.bump.start_off + a.bump.cursor + align8_i32 need))
          ≡ false =
        ground (arith, inv.small, inv.inside, up) in
      rw (e, off, f) refl

  pub bump_alloc-exhausted :
      a.bump.capacity < a.bump.cursor + align8_i32 need → bump_alloc need a ≡ ok (a, none)
  unfolding bump_alloc
  bump_alloc-exhausted full =
      let up = align8_i32_lem need (omega (arith, fits)) in
      let e : greater_i32 ((a.bump.cursor + align8_i32 need) % 2 ^ 32) a.bump.capacity ≡ true =
        ground (arith, inv.small, inv.within, up) in
      rw e refl

  pub served-InBump :
      a.bump.cursor + align8_i32 need ≤ a.bump.capacity
      → InBump (served (a.bump.start_off + a.bump.cursor) (align8_i32 need) a).0
  served-InBump room =
      let up = align8_i32_lem need (omega (arith, fits)) in
      let v : ℕ = (2 ^ 32 - align8_i32 need) % 2 ^ 32 in
      let size : abs_i32 v ≡ align8_i32 need = ground (arith, up, fits) in
      let cursor : (a.bump.cursor + align8_i32 need) % 2 ^ 32 ≡ a.bump.cursor + align8_i32 need =
        omega (arith, room, inv.small) in
      record {
        active = inv.active;
        whole = inv.whole;
        moved = omega (arith, cursor, up, inv.moved);
        within = omega (arith, cursor, room);
        inside = omega (
          arith,
          inv.inside,
          length-poke (le_bytes 4 v) (a.bump.start_off + a.bump.cursor) a.buffer,
        );
        small = inv.small;
        tiled =
            subst
              (λ end.
                CellsTile (put (a.bump.start_off + a.bump.cursor) v a.buffer) end a.bump.start_off)
              (omega (arith, size, cursor))
              (CellsTile-put a.buffer (a.bump.start_off + a.bump.cursor) v a.bump.start_off
                inv.tiled (omega arith) (omega (arith, inv.inside, room, up, fits))
                (omega (arith, size, up, fits, inv.moved)) (omega (arith, size, up, fits))
                (ap (λ n. n % 8) size ∙ up.0));
      }

  pub served-SameRegion :
      SameRegion a (served (a.bump.start_off + a.bump.cursor) (align8_i32 need) a).0
  served-SameRegion = record {
    start = refl;
    capacity = refl;
    len =
        length-poke (le_bytes 4 ((2 ^ 32 - align8_i32 need) % 2 ^ 32))
          (a.bump.start_off + a.bump.cursor) a.buffer;
    front = λ k pos h.
        slice-poke_above (le_bytes 4 ((2 ^ 32 - align8_i32 need) % 2 ^ 32))
          (a.bump.start_off + a.bump.cursor) a.buffer k pos (omega arith);
  }

-- The allocations of a list of requests, one after the other; an exhausted region serves none.
unfoldable pub run_allocs : List ℕ → Allocator → Outcome AllocError Allocator
unfolding bump_alloc
run_allocs [] a = ok a
run_allocs (need ∷ needs) a = bump_alloc need a >>= λ r. run_allocs needs r.0

-- What a run of allocations comes to.
pub record Ran (needs : List ℕ) (a a' : Allocator) : Type 0 where
  pub returns : run_allocs needs a ≡ ok a'
  pub inv : InBump a'
  pub same : SameRegion a a'

SameRegion-trans : (a b c : Allocator) → SameRegion a b → SameRegion b c → SameRegion a c
SameRegion-trans a b c p q = record {
  start = q.start ∙ p.start;
  capacity = q.capacity ∙ p.capacity;
  len = q.len ∙ p.len;
  front = λ k pos h. q.front k pos (omega (arith, p.start)) ∙ p.front k pos h;
}

SameRegion-refl : (a : Allocator) → SameRegion a a
SameRegion-refl a = record { start = refl; capacity = refl; len = refl; front = λ k pos h. refl }

-- One allocation leaves the region in order, served or not.
bump_alloc-steps :
    (a : Allocator) (need : ℕ)
    → InBump a
    → Fits a.bump.capacity need
    → (r : Allocator × Option Allocated) × (bump_alloc need a ≡ ok r)
      × InBump r.0
      × SameRegion a r.0
bump_alloc-steps a need inv fits =
    elim (Bool-cases (leb (a.bump.cursor + align8_i32 need) a.bump.capacity)) [
      | inl e ↦ (
        served (a.bump.start_off + a.bump.cursor) (align8_i32 need) a,
        bump_alloc-served a inv need fits (ground arith),
        served-InBump a inv need fits (ground arith),
        served-SameRegion a inv need fits,
      )
      | inr e ↦
          ((a, none), bump_alloc-exhausted a inv need fits (ground arith), inv, SameRegion-refl a)
    ]

pub Fits-after :
    (a b : Allocator)
    → SameRegion a b
    → (needs : List ℕ) → All (Fits a.bump.capacity) needs
    → All (Fits b.bump.capacity) needs
Fits-after a b s needs h = subst (λ c. All (Fits c) needs) (sym s.capacity) h

pub run_allocs-Ran :
    (needs : List ℕ) (a : Allocator)
    → InBump a
    → All (Fits a.bump.capacity) needs
    → (a' : Allocator) × Ran needs a a'
unfolding run_allocs
run_allocs-Ran [] a inv fits = (a, record { returns = refl; inv = inv; same = SameRegion-refl a })
run_allocs-Ran (need ∷ needs) a inv fits =
    let (r, e, inv', same) = bump_alloc-steps a need inv fits.0 in
    let (a', ran) = run_allocs-Ran needs r.0 inv' (Fits-after a r.0 same needs fits.1) in
    (
      a',
      record {
        returns = rw e ran.returns;
        inv = ran.inv;
        same = SameRegion-trans a r.0 a' same ran.same;
      },
    )
