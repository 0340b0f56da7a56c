-- ===== src/Format/Stores.antt =====
-- A run of stores into one buffer, in the order in which a writer makes them, and what a reader
-- finds behind it. Each constructor is one statement of the source.
use hivekit.Common.{
  ap, sym, ◌<◌, ◌^◌, ℕ, ◌+◌, ◌%◌, ◌≤◌, ◌≡◌, refl, ◌∙◌, arith, Bool, true, ◌&&◌, ◌||◌, Option, none,
  some, List, [], ◌∷◌, ◌++◌, length, Outcome, ok, panic, ◌>>=◌, leb, ◌==◌, if◌then◌else◌,
}
use hivekit.Common.Bytes.{
  peek, le_value, le_value-le_bytes, peek-of_slice, Bytes, slice, poke, le_bytes, length-poke,
  slice-poke_self, slice-poke_below, slice-poke_above,
}
use hivekit.Format.Consts.{Error}

-- buf[off] = v, format.PutU16, PutU32 and PutU64(buf, off, v), and copy(buf[off:], src).
pub data Store : Type 0 where
  byte : ℕ → ℕ → Store
  u16 : ℕ → ℕ → Store
  u32 : ℕ → ℕ → Store
  u64 : ℕ → ℕ → Store
  copy : ℕ → Bytes → Store

abbrev pub place : Store → ℕ
place (byte off v) = off
place (u16 off v) = off
place (u32 off v) = off
place (u64 off v) = off
place (copy off src) = off

abbrev content : Store → Bytes
content (byte off v) = (v % 256) ∷ []
content (u16 off v) = le_bytes 2 v
content (u32 off v) = le_bytes 4 v
content (u64 off v) = le_bytes 8 v
content (copy off src) = src

-- The bytes that must be there for the statement not to panic: `copy` cuts its source.
abbrev needs : Store → ℕ
needs (copy off src) = off
needs s = place s + length (content s)

unfoldable pub write_store : Store → Bytes → Outcome Error Bytes
write_store s b = if leb (needs s) (length b) then ok (poke (content s) (place s) b) else panic

unfoldable pub run : List Store → Bytes → Outcome Error Bytes
unfolding write_store
run [] b = ok b
run (s ∷ ss) b = do b' ← write_store s b; run ss b'

pub run-append : (ss ts : List Store) (b : Bytes) → run (ss ++ ts) b ≡ (do b' ← run ss b; run ts b')
unfolding run
run-append [] ts b = refl
run-append (s ∷ ss) ts b = ground (arith, run-append ss ts (poke (content s) (place s) b))

-- Every write_store of the run lies inside a buffer of `n` bytes.
abbrev pub Within : List Store → ℕ → Type 0
Within [] n = Unit {0}
Within (s ∷ ss) n = (place s + length (content s) ≤ n) × Within ss n

unfoldable pub result : List Store → Bytes → Bytes
result [] b = b
result (s ∷ ss) b = result ss (poke (content s) (place s) b)

pub result-append : (ss ts : List Store) (b : Bytes) → result (ss ++ ts) b ≡ result ts (result ss b)
unfolding result
result-append [] ts b = refl
result-append (s ∷ ss) ts b = result-append ss ts (poke (content s) (place s) b)

pub length-result : (ss : List Store) (b : Bytes) → length (result ss b) ≡ length b
unfolding result
length-result [] b = refl
length-result (s ∷ ss) b =
    length-result ss (poke (content s) (place s) b) ∙ length-poke (content s) (place s) b

needs-le : (s : Store) (n : ℕ) → place s + length (content s) ≤ n → needs s ≤ n
needs-le (byte off v) n h = h
needs-le (u16 off v) n h = h
needs-le (u32 off v) n h = h
needs-le (u64 off v) n h = h
needs-le (copy off src) n h = omega arith

-- With room for every write_store the run does not panic.
pub run-eq-result :
    (ss : List Store) (b : Bytes) → Within ss (length b) → run ss b ≡ ok (result ss b)
unfolding run result
run-eq-result [] b h = refl
run-eq-result (s ∷ ss) b h =
    let b' = poke (content s) (place s) b in
    let same : length b' ≡ length b = length-poke (content s) (place s) b in
    ground (arith, needs-le s (length b) h.0, run-eq-result ss b' (rw same h.1))

-- `k` bytes at `off` are touched by no store of the run.
abbrev pub untouched : ℕ → ℕ → List Store → Bool
untouched k off [] = true
untouched k off (s ∷ ss) =
    (leb (off + k) (place s) || leb (place s + length (content s)) off) && untouched k off ss

pub slice-result-untouched :
    (k off : ℕ) (ss : List Store) (b : Bytes)
    → untouched k off ss ≡ true
    → slice k off (result ss b) ≡ slice k off b
unfolding result
slice-result-untouched k off [] b h = refl
slice-result-untouched k off (s ∷ ss) b h = ground (
  arith,
  slice-result-untouched k off ss (poke (content s) (place s) b),
  slice-poke_below (content s) (place s) b k off,
  slice-poke_above (content s) (place s) b k off,
)

-- What the last store of exactly these bytes wrote, if no later one overlaps them.
abbrev pub written : ℕ → ℕ → List Store → Option Bytes
written k off [] = none
written k off (s ∷ ss) = elim (written k off ss) [
  | some ws ↦ some ws
  | none ↦
      if (off == place s) && (k == length (content s)) && untouched k off ss
      then some (content s)
      else none
]

pub slice-result :
    (k off : ℕ) (ss : List Store) (b ws : Bytes)
    → Within ss (length b)
    → written k off ss ≡ some ws
    → slice k off (result ss b) ≡ ws
unfolding result
slice-result k off [] b ws h e = cc
slice-result k off (s ∷ ss) b ws h e = ground (
  arith,
  length-poke (content s) (place s) b,
  slice-result k off ss (poke (content s) (place s) b) ws,
  slice-result-untouched k off ss (poke (content s) (place s) b),
  slice-poke_self (content s) (place s) b,
)

-- A word that a run of stores writes is read back.
pub peek-result :
    (k off : ℕ) (ss : List Store) (b : Bytes) (v : ℕ)
    → Within ss (length b)
    → written k off ss ≡ some (le_bytes k v)
    → v < 256 ^ k
    → peek k (result ss b) off ≡ v
peek-result k off ss b v h w hv =
    peek-of_slice k (result ss b) off
    ∙ ap le_value (slice-result k off ss b (le_bytes k v) h w)
    ∙ le_value-le_bytes k v hv

pub peek-result-untouched :
    (k off : ℕ) (ss : List Store) (b : Bytes)
    → untouched k off ss ≡ true
    → peek k (result ss b) off ≡ peek k b off
peek-result-untouched k off ss b h =
    peek-of_slice k (result ss b) off
    ∙ ap le_value (slice-result-untouched k off ss b h)
    ∙ sym (peek-of_slice k b off)
