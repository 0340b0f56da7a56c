-- ===== src/Dirty/Coalesce.antt =====
-- The coalesced ranges against the ranges that were added.
use hivekit.Common.{
  All, ℕ, ◌+◌, ◌-◌, ◌*◌, ◌/◌, ◌%◌, ◌≤◌, ◌<◌, ◌≡◌, refl, ◌∙◌, ap, List, [], ◌∷◌, map, Bool, true,
  false, ◌||◌, ◌&&◌, ltb, leb, arith, Bool-cases, inl, inr,
}
use hivekit.Dirty.{
  Range, Tracker, align, round_up, insert_by_off, sort_by_off, extend, merge_ranges, merge_sorted,
  coalesce,
}

abbrev pub within : Range → ℕ → Bool
within r x = leb r.off x && ltb x (r.off + r.len)

-- Byte `x` lies in one of the ranges.
unfoldable pub covered : List Range → ℕ → Bool
covered [] x = false
covered (r ∷ rs) x = within r x || covered rs x

covered-insert_by_off :
    (r : Range) (rs : List Range) (x : ℕ)
    → covered (insert_by_off r rs) x ≡ (within r x || covered rs x)
unfolding covered insert_by_off
covered-insert_by_off r [] x = refl
covered-insert_by_off r (s ∷ rs) x = ground (arith, covered-insert_by_off r rs x)

covered-sort_by_off : (rs : List Range) (x : ℕ) → covered (sort_by_off rs) x ≡ covered rs x
unfolding covered sort_by_off
covered-sort_by_off [] x = refl
covered-sort_by_off (r ∷ rs) x =
    covered-insert_by_off r (sort_by_off rs) x
    ∙ ap (λ t. within r x || t) (covered-sort_by_off rs x)

-- Offsets ascend, and the first is not below `lo`.
abbrev Ascending : ℕ → List Range → Type 0
Ascending lo [] = Unit
Ascending lo (r ∷ rs) = (lo ≤ r.off) × Ascending r.off rs

insert_by_off-Ascending :
    (lo : ℕ) (r : Range) (rs : List Range)
    → lo ≤ r.off
    → Ascending lo rs
    → Ascending lo (insert_by_off r rs)
unfolding insert_by_off
insert_by_off-Ascending lo r [] h a = (h, tt)
insert_by_off-Ascending lo r (s ∷ rs) h (p, a) = elim (Bool-cases (ltb s.off r.off)) [
  | inl e ↦ rw e (p, insert_by_off-Ascending s.off r rs (ground arith) a)
  | inr e ↦ rw e (h, (ground arith, a))
]

sort_by_off-Ascending : (rs : List Range) → Ascending 0 (sort_by_off rs)
unfolding sort_by_off
sort_by_off-Ascending [] = tt
sort_by_off-Ascending (r ∷ rs) =
    insert_by_off-Ascending 0 r (sort_by_off rs) (omega arith) (sort_by_off-Ascending rs)

Ascending-lower : {lo hi : ℕ} (rs : List Range) → lo ≤ hi → Ascending hi rs → Ascending lo rs
Ascending-lower [] h a = tt
Ascending-lower (r ∷ rs) h (p, a) = (omega arith, a)

within-extend :
    (c n : Range) (x : ℕ)
    → c.off ≤ n.off
    → n.off ≤ c.off + c.len
    → within (extend c n) x ≡ (within c x || within n x)
within-extend c n x p q = ground arith

-- Merging keeps the bytes.
covered-merge_ranges :
    (c : Range) (rs : List Range) (x : ℕ)
    → Ascending c.off rs
    → covered (merge_ranges c rs) x ≡ (within c x || covered rs x)
unfolding covered merge_ranges
covered-merge_ranges c [] x a = refl
covered-merge_ranges c (n ∷ rs) x (p, a) = elim (Bool-cases (leb n.off (c.off + c.len))) [
  | inl e ↦ rw e (
      covered-merge_ranges (extend c n) rs x (Ascending-lower rs p a)
      ∙ ground (arith, within-extend c n x p))
  | inr e ↦ rw e (ap (λ t. within c x || t) (covered-merge_ranges n rs x a))
]

-- The ranges behind `lo` leave a gap before each, and lie on pages.
abbrev pub Separated : ℕ → List Range → Type 0
Separated lo [] = Unit
Separated lo (r ∷ rs) = (lo ≤ r.off) × Separated (r.off + r.len + 1) rs

merge_ranges-Separated :
    (lo : ℕ) (c : Range) (rs : List Range)
    → lo ≤ c.off
    → Ascending c.off rs
    → Separated lo (merge_ranges c rs)
unfolding merge_ranges
merge_ranges-Separated lo c [] h a = (h, tt)
merge_ranges-Separated lo c (n ∷ rs) h (p, a) = elim (Bool-cases (leb n.off (c.off + c.len))) [
  | inl e ↦ rw e (merge_ranges-Separated lo (extend c n) rs h (Ascending-lower rs p a))
  | inr e ↦ rw e (h, merge_ranges-Separated (c.off + c.len + 1) n rs (ground arith) a)
]

abbrev pub OnPages : ℕ → Range → Type 0
OnPages page_size r = (r.off % page_size ≡ 0) × ((r.off + r.len) % page_size ≡ 0)

extend-OnPages :
    (s : ℕ) (c n : Range) → c.off ≤ n.off → OnPages s c → OnPages s n → OnPages s (extend c n)
extend-OnPages s c n p hc hn = ground arith

insert_by_off-All :
    (P : Range → Type 0) (r : Range) (rs : List Range) → P r → All P rs → All P (insert_by_off r rs)
unfolding insert_by_off
insert_by_off-All P r [] h hs = (h, tt)
insert_by_off-All P r (s ∷ rs) h (k, hs) = elim (Bool-cases (ltb s.off r.off)) [
  | inl e ↦ rw e (k, insert_by_off-All P r rs h hs)
  | inr e ↦ rw e (h, (k, hs))
]

sort_by_off-All : (P : Range → Type 0) (rs : List Range) → All P rs → All P (sort_by_off rs)
unfolding sort_by_off
sort_by_off-All P [] h = tt
sort_by_off-All P (r ∷ rs) (h, hs) =
    insert_by_off-All P r (sort_by_off rs) h (sort_by_off-All P rs hs)

-- What every aligned range has, and growing keeps, every merged range has.
module _ (P : Range → Type 0)
    (grow : (c n : Range) → c.off ≤ n.off → P c → P n → P (extend c n)) where
  merge_ranges-All :
      (c : Range) (rs : List Range)
      → Ascending c.off rs
      → P c
      → All P rs
      → All P (merge_ranges c rs)
  unfolding merge_ranges
  merge_ranges-All c [] a h hs = (h, tt)
  merge_ranges-All c (n ∷ rs) (p, a) h (k, hs) = elim (Bool-cases (leb n.off (c.off + c.len))) [
    | inl e ↦ rw e (merge_ranges-All (extend c n) rs (Ascending-lower rs p a) (grow c n p h k) hs)
    | inr e ↦ rw e (h, merge_ranges-All n rs a k hs)
  ]

  merge_sorted-All : (rs : List Range) → Ascending 0 rs → All P rs → All P (merge_sorted rs)
  unfolding merge_sorted
  merge_sorted-All [] a h = tt
  merge_sorted-All (r ∷ rs) (p, a) (k, h) = merge_ranges-All r rs a k h

  pub coalesce-All : (t : Tracker) → All P (map (align t.page_size) t.ranges) → All P (coalesce t)
  unfolding coalesce
  coalesce-All t h =
      let aligned : List Range = map (align t.page_size) t.ranges in
      merge_sorted-All (sort_by_off aligned) (sort_by_off-Ascending aligned)
        (sort_by_off-All P aligned h)

mul-mod_self : (q s : ℕ) → 0 < s → q * s % s ≡ 0
mul-mod_self q s h = grind arith

pub page_start-le : (s x : ℕ) → x / s * s ≤ x
page_start-le s x = grind arith

round_up-mod : (s e : ℕ) → 0 < s → round_up s e % s ≡ 0
round_up-mod s e h = ground (arith, mul-mod_self (e / s + 1) s h)

pub le-round_up : (s e : ℕ) → 0 < s → e ≤ round_up s e
le-round_up s e h = grind arith

align-OnPages : (s : ℕ) (r : Range) → 0 < s → OnPages s (align s r)
unfolding align
align-OnPages s r h = (
  mul-mod_self (r.off / s) s h,
  let e : r.off / s * s + (round_up s (r.off + r.len) - r.off / s * s)
          ≡ round_up s (r.off + r.len) =
        omega (arith, page_start-le s r.off, le-round_up s (r.off + r.len) h) in
      rw e (round_up-mod s (r.off + r.len) h),
)

align-All-OnPages : (s : ℕ) (rs : List Range) → 0 < s → All (OnPages s) (map (align s) rs)
align-All-OnPages s [] h = tt
align-All-OnPages s (r ∷ rs) h = (align-OnPages s r h, align-All-OnPages s rs h)

-- A range lies inside its pages.
within-align : (s : ℕ) (r : Range) (x : ℕ) → 0 < s → within r x ≡ true → within (align s r) x ≡ true
unfolding align
within-align s r x h e = ground (arith, page_start-le s r.off, le-round_up s (r.off + r.len) h)

module _ (s : ℕ) (h : 0 < s) where
  covered-align :
      (rs : List Range) (x : ℕ) → covered rs x ≡ true → covered (map (align s) rs) x ≡ true
  unfolding covered
  covered-align [] x e = cc
  covered-align (r ∷ rs) x e = ground (arith, within-align s r x h, covered-align rs x)

merge_sorted_lem :
    (s : ℕ) (rs : List Range) (x : ℕ)
    → Ascending 0 rs
    → All (OnPages s) rs
    → (covered (merge_sorted rs) x ≡ covered rs x)
      × Separated 0 (merge_sorted rs)
      × All (OnPages s) (merge_sorted rs)
unfolding merge_sorted covered
merge_sorted_lem s [] x a o = (refl, tt, tt)
merge_sorted_lem s (r ∷ rs) x (p, a) (k, o) = (
  covered-merge_ranges r rs x a,
  merge_ranges-Separated 0 r rs p a,
  merge_ranges-All (OnPages s) (extend-OnPages s) r rs a k o,
)

pub coalesce_lem :
    (t : Tracker) (x : ℕ)
    → 0 < t.page_size
    → (covered (coalesce t) x ≡ covered (map (align t.page_size) t.ranges) x)
      × Separated 0 (coalesce t)
      × All (OnPages t.page_size) (coalesce t)
unfolding coalesce
coalesce_lem t x h =
    let aligned : List Range = map (align t.page_size) t.ranges in
    let (same, gaps, pages) =
      merge_sorted_lem t.page_size (sort_by_off aligned) x (sort_by_off-Ascending aligned) (
        sort_by_off-All (OnPages t.page_size) aligned (align-All-OnPages t.page_size t.ranges h)) in
    (same ∙ covered-sort_by_off aligned x, gaps, pages)

-- With a page size above zero, every dirty byte is in a coalesced range.
pub covered-coalesce :
    (t : Tracker) (x : ℕ)
    → 0 < t.page_size
    → covered t.ranges x ≡ true
    → covered (coalesce t) x ≡ true
covered-coalesce t x h e = (coalesce_lem t x h).0 ∙ covered-align t.page_size h t.ranges x e
