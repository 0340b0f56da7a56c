-- ===== src/Dirty/Flush.antt =====
-- What a flush hands to the system.
use hivekit.Common.{
  ℕ, ◌+◌, ◌*◌, ◌/◌, ◌%◌, ◌≤◌, ◌<◌, ◌≡◌, ◌≢◌, refl, List, [], ◌∷◌, map, All, Bool, true, false, none,
  arith,
}
use native.Mathlib.Nat.{div-add-mod'}
use hivekit.Dirty.{
  Range, Tracker, new_tracker, add, Answer, done, flush_loop, flush_data_only, coalesce, align,
  extend, round_up,
}
use hivekit.Dirty.Coalesce.{covered, covered-coalesce, coalesce-All, page_start-le, le-round_up}

abbrev Inside : ℕ → Range → Type 0
Inside data_len r = (r.off ≢ 0) × (r.off + r.len ≤ data_len)

-- Without an error the loop hands over every range that does not start at 0 and ends in the file.
flush_loop-covered :
    (env : Range → Answer) (n : ℕ) (rs : List Range) (x : ℕ)
    → (flush_loop env n rs).1 ≡ none
    → All (Inside n) rs
    → covered (flush_loop env n rs).0 x ≡ covered rs x
unfolding flush_loop covered
flush_loop-covered env n [] x e h = refl
flush_loop-covered env n (r ∷ rs) x e (k, h) = ground (arith, flush_loop-covered env n rs x)

whole_pages : (e n s : ℕ) → 0 < s → n % s ≡ 0 → e < n → (e / s + 1) * s ≤ n
whole_pages e n s hs hn h = grind (arith, div-add-mod' n s, div-add-mod' e s)

-- Where a hive has whole pages, the pages of a range inside it are inside it.
round_up-le : (s e n : ℕ) → 0 < s → n % s ≡ 0 → e ≤ n → round_up s e ≤ n
round_up-le s e n hs hn h = ground (arith, whole_pages e n s hs hn)

page_start-ge : (s x : ℕ) → 0 < s → s ≤ x → s ≤ x / s * s
page_start-ge s x hs h = grind arith

abbrev Behind : ℕ → ℕ → Range → Type 0
Behind s n r = (s ≤ r.off) × (r.off + r.len ≤ n)

align-Behind : (s n : ℕ) (r : Range) → 0 < s → n % s ≡ 0 → Behind s n r → Behind s n (align s r)
unfolding align
align-Behind s n r hs hn (p, q) = omega (
  arith,
  page_start-ge s r.off hs p,
  page_start-le s r.off,
  le-round_up s (r.off + r.len) hs,
  round_up-le s (r.off + r.len) n hs hn q,
)

align-All-Behind :
    (s n : ℕ) (rs : List Range)
    → 0 < s
    → n % s ≡ 0
    → All (Behind s n) rs
    → All (Behind s n) (map (align s) rs)
align-All-Behind s n [] hs hn h = tt
align-All-Behind s n (r ∷ rs) hs hn (k, h) =
    (align-Behind s n r hs hn k, align-All-Behind s n rs hs hn h)

extend-Behind :
    (s n : ℕ) (c d : Range) → c.off ≤ d.off → Behind s n c → Behind s n d → Behind s n (extend c d)
extend-Behind s n c d p hc hd = ground arith

Behind→Inside : (s n : ℕ) (rs : List Range) → 0 < s → All (Behind s n) rs → All (Inside n) rs
Behind→Inside s n [] hs h = tt
Behind→Inside s n (r ∷ rs) hs ((p, q), h) = ((omega arith, q), Behind→Inside s n rs hs h)

flushed :
    (before : Bool) (env : Range → Answer) (n s : ℕ) (rs : List Range) (x : ℕ)
    → 0 < s
    → All (Behind s n) rs
    → All (Inside n) (coalesce (record { ranges = rs; page_size = s }))
    → (flush_data_only before env n (record { ranges = rs; page_size = s })).error ≡ none
    → covered rs x ≡ true
    → covered (coalesce (record { ranges = rs; page_size = s })) x ≡ true
    → (covered (flush_data_only before env n (record { ranges = rs; page_size = s })).synced x
        ≡ true)
      × ((flush_data_only before env n (record { ranges = rs; page_size = s })).tracker.ranges ≡ [])
unfolding flush_data_only covered
flushed before env n s [] x hs inside kept e dirty all = cc
flushed before env n s (r ∷ rs) x hs ((p, q), inside) kept e dirty all =
    let t : Tracker = record { ranges = r ∷ rs; page_size = s } in
    ground (arith, flush_loop-covered env n (coalesce t) x, all, kept)

-- A flush whose ranges all lie behind the header page and inside a hive of whole pages, and which
-- returns no error, has handed every dirty byte to msync and has cleared the ranges.
pub flush_data_only-syncs :
    (before : Bool) (env : Range → Answer) (n : ℕ) (t : Tracker) (x : ℕ)
    → 0 < t.page_size
    → n % t.page_size ≡ 0
    → All (λ r. (t.page_size ≤ r.off) × (r.off + r.len ≤ n)) t.ranges
    → (flush_data_only before env n t).error ≡ none
    → covered t.ranges x ≡ true
    → (covered (flush_data_only before env n t).synced x ≡ true)
      × ((flush_data_only before env n t).tracker.ranges ≡ [])
flush_data_only-syncs before env n t x hp hn inside e dirty =
    let kept : All (Inside n) (coalesce t) = Behind→Inside t.page_size n (coalesce t) hp (
      coalesce-All (Behind t.page_size n) (extend-Behind t.page_size n) t
        (align-All-Behind t.page_size n t.ranges hp hn inside)) in
    flushed before env n t.page_size t.ranges x hp inside kept e dirty
      (covered-coalesce t x hp dirty)

-- When msync always returns, the range that a transaction's Begin adds for the header page takes a
-- dirty range of any length above 0 right behind it with it: their union starts at 0 and is
-- skipped, no byte of a hive that is not empty reaches msync, and the ranges are cleared without an
-- error.
pub header_swallows_neighbour :
    (env : Range → Answer) (n d : ℕ)
    → 0 < d
    → 0 < n
    → ((r : Range) → env r ≡ done)
    → let f = flush_data_only false env n (add (add new_tracker 0 4096) 4096 d) in
      (f.synced ≡ []) × (f.error ≡ none) × (f.tracker.ranges ≡ [])
unfolding flush_data_only flush_loop coalesce add new_tracker
header_swallows_neighbour env n d hd hn answers = ground (
  arith,
  answers (extend (record { off = 0; len = 4096 }) (align 4096 (record { off = 4096; len = d }))),
)
