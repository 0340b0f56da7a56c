-- ===== src/Alloc/Bump/Words.antt =====
-- Which words the allocations of the bump mode write, and where.
use mathlib.Core.List.{append_assoc, append-nil}
use hivekit.Common.{
  ℕ, ◌+◌, ◌-◌, ◌%◌, ◌^◌, ◌≤◌, ◌<◌, ◌≡◌, refl, sym, ap, ◌∙◌, subst, arith, List, [], ◌∷◌, ◌++◌, All,
  ok, ok-inj, ◌>>=◌, leb, Bool-cases, inl, inr,
}
use hivekit.Format.Align.{align8_i32, align8_i32_lem}
use hivekit.Alloc.{Allocator}
use hivekit.Verify.Bins.{abs_i32}
use hivekit.Alloc.Bump.{served}
use hivekit.Alloc.Bump.Region.{
  InBump, Fits, Fits-after, bump_alloc-served, bump_alloc-exhausted, served-InBump,
  served-SameRegion, run_allocs,
}
use hivekit.Alloc.Bump.Laid.{Laid, Laid-put, allocated_word, granted, room_left}

abbrev pub room_of : Allocator → ℕ
room_of a = a.bump.capacity - a.bump.cursor

-- The cells from the start of the region to the cursor have these words.
abbrev pub LaidUp : Allocator → List ℕ → Type 0
LaidUp a words = Laid a.buffer words a.bump.start_off (a.bump.start_off + a.bump.cursor)

-- What the allocations add.
abbrev pub Adds : List ℕ → List ℕ → Allocator → Allocator → Type 0
Adds words needs a a' =
    LaidUp a' (words ++ granted (room_of a) needs) × (room_of a' ≡ room_left (room_of a) needs)

module _ (a : Allocator) (inv : InBump a) (need : ℕ) (fits : Fits a.bump.capacity need)
    (room : a.bump.cursor + align8_i32 need ≤ a.bump.capacity) where
  abbrev after : Allocator
  after = (served (a.bump.start_off + a.bump.cursor) (align8_i32 need) a).0

  room-after : room_of after ≡ room_of a - align8_i32 need
  room-after = omega (arith, inv.small, inv.within, room)

  served-LaidUp :
      (words : List ℕ)
      → LaidUp a words
      → LaidUp after (words ++ allocated_word (align8_i32 need) ∷ [])
  served-LaidUp words laid =
      let up = align8_i32_lem need (omega (arith, fits)) in
      let v : ℕ = (2 ^ 32 - align8_i32 need) % 2 ^ 32 in
      let word : v ≡ allocated_word (align8_i32 need) = omega (arith, up, fits) in
      let size : abs_i32 v ≡ align8_i32 need = ground (arith, up, fits) in
      let end : a.bump.start_off + a.bump.cursor + abs_i32 v
          ≡ after.bump.start_off + after.bump.cursor =
        omega (arith, size, room, inv.small) in
      subst (λ w. LaidUp after (words ++ w ∷ [])) word
        (subst (λ e. Laid after.buffer (words ++ v ∷ []) a.bump.start_off e) end
          (Laid-put a.buffer words a.bump.start_off (a.bump.start_off + a.bump.cursor) v laid
            (omega arith) (omega (arith, inv.inside, room, up, fits))
            (omega (arith, size, up, fits))))

pub run_allocs-Adds :
    (needs words : List ℕ) (a a' : Allocator)
    → InBump a
    → All (Fits a.bump.capacity) needs
    → run_allocs needs a ≡ ok a'
    → LaidUp a words
    → Adds words needs a a'
unfolding run_allocs
run_allocs-Adds [] words a a' inv fits e laid =
    subst (Adds words [] a) (ok-inj a a' e) (subst (LaidUp a) (sym (append-nil words)) laid, refl)
run_allocs-Adds (need ∷ needs) words a a' inv fits e laid =
    elim (Bool-cases (leb (align8_i32 need) (room_of a))) [
      | inl t ↦
          let room : a.bump.cursor + align8_i32 need ≤ a.bump.capacity =
            ground (arith, inv.within) in
          let b = after a inv need fits.0 room in
          let step : run_allocs needs b ≡ ok a' =
            ap (λ r. r >>= λ x. run_allocs needs x.0)
              (sym (bump_alloc-served a inv need fits.0 room))
            ∙ e in
          let same = served-SameRegion a inv need fits.0 in
          let (laid', left) =
            run_allocs-Adds needs (words ++ allocated_word (align8_i32 need) ∷ []) b a'
              (served-InBump a inv need fits.0 room) (Fits-after a b same needs fits.1) step
              (served-LaidUp a inv need fits.0 room words laid) in
          let less = room-after a inv need fits.0 room in
          rw t (
            subst (LaidUp a')
                (append_assoc words (allocated_word (align8_i32 need) ∷ [])
                    (granted (room_of b) needs)
                  ∙ ap (λ n. words ++ allocated_word (align8_i32 need) ∷ granted n needs) less)
                laid',
            left ∙ ap (λ n. room_left n needs) less,
          )
      | inr t ↦
          let full : a.bump.capacity < a.bump.cursor + align8_i32 need = ground arith in
          let step : run_allocs needs a ≡ ok a' =
            ap (λ r. r >>= λ x. run_allocs needs x.0)
              (sym (bump_alloc-exhausted a inv need fits.0 full))
            ∙ e in
          rw t (run_allocs-Adds needs words a a' inv fits.1 step laid)
    ]
