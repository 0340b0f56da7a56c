-- ===== src/Alloc/Bump/Laid.antt =====
-- The words in front of the cells of a bump region, one behind the other.
use hivekit.Common.{
  ℕ, ◌+◌, ◌-◌, ◌^◌, ◌≤◌, ◌<◌, ◌≡◌, sym, ap, ◌∙◌, subst, arith, List, [], ◌∷◌, ◌++◌, length, leb,
  ◌==◌, if◌then◌else◌,
}
use hivekit.Common.Bytes.{Bytes, peek}
use hivekit.Format.Encoding.Laws.{peek-poke_self}
use hivekit.Format.Align.{align8_i32}
use hivekit.Alloc.{put}
use hivekit.Verify.Bins.{abs_i32}
use hivekit.Alloc.Bump.Tiles.{peek-put_above}

-- Cells with these words, the first at `pos`, up to `end`; each has room for its word.
abbrev pub Laid : Bytes → List ℕ → ℕ → ℕ → Type 0
Laid b [] pos end = pos ≡ end
Laid b (w ∷ words) pos end =
    (peek 4 b pos ≡ w) × (4 ≤ abs_i32 w) × Laid b words (pos + abs_i32 w) end

-- The word of an allocated cell is minus its size, that of a free one its size.
abbrev pub allocated_word : ℕ → ℕ
allocated_word size = 2 ^ 32 - size

-- The words of the cells that are handed out of `room` bytes: a request that there is no room for
-- gets none.
abbrev pub granted : ℕ → List ℕ → List ℕ
granted room [] = []
granted room (need ∷ needs) =
    if leb (align8_i32 need) room
    then allocated_word (align8_i32 need) ∷ granted (room - align8_i32 need) needs
    else granted room needs

-- The room that is left.
abbrev pub room_left : ℕ → List ℕ → ℕ
room_left room [] = room
room_left room (need ∷ needs) =
    if leb (align8_i32 need) room
    then room_left (room - align8_i32 need) needs
    else room_left room needs

-- The free cell that takes what is left.
abbrev pub free_words : ℕ → List ℕ
free_words left = if left == 0 then [] else left ∷ []

Laid-le : (b : Bytes) (words : List ℕ) (pos end : ℕ) → Laid b words pos end → pos ≤ end
Laid-le b [] pos end h = omega (arith, h)
Laid-le b (w ∷ words) pos end (here, wide, rest) =
    omega (arith, Laid-le b words (pos + abs_i32 w) end rest)

-- One more cell behind them.
pub Laid-put :
    (b : Bytes) (words : List ℕ) (pos end v : ℕ)
    → Laid b words pos end
    → v < 2 ^ 32
    → end + 4 ≤ length b
    → 4 ≤ abs_i32 v
    → Laid (put end v b) (words ++ v ∷ []) pos (end + abs_i32 v)
Laid-put b [] pos end v h small inside wide =
    let here : peek 4 (put end v b) pos ≡ v =
      subst (λ p. peek 4 (put end v b) p ≡ v) (sym h) (peek-poke_self 4 v end b small inside) in
    (here, wide, ap (λ p. p + abs_i32 v) h)
Laid-put b (w ∷ words) pos end v (here, room, rest) small inside wide =
    let below = Laid-le b words (pos + abs_i32 w) end rest in
    (
      peek-put_above b end v pos (omega (arith, below)) ∙ here,
      room,
      Laid-put b words (pos + abs_i32 w) end v rest small inside wide,
    )
