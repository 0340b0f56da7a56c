-- ===== src/Repair/Modules/Verified.antt =====
-- internal/repair: a repair that a module has applied passes that module's own Verify.
use hivekit.Common.{
  ℕ, ◌+◌, ◌%◌, ◌^◌, ◌≤◌, ◌<◌, ◌≡◌, refl, arith, Bool, true, not, ◌&&◌, Option, none, some, length,
  take, ltb, leb, ◌==◌, inl, inr, Bool-cases,
}
use hivekit.Common.Bytes.{Bytes, peek, slice, le_bytes, length-poke, slice-poke_above}
use hivekit.Format.Consts.{invalid_offset, bytes_equal, regf_signature}
use hivekit.Format.Encoding.Laws.{peek-poke_self}
use hivekit.Repair.Types.{RepairType, truncate, replace, default, Diagnostic}
use hivekit.Repair.Modules.Base.{put_at, apply_replace, applied_to, type_of, matches}
use hivekit.Repair.Modules.Nk.{nk_apply, nk_apply_type, nk_verify, nk_expects}
use hivekit.Repair.Modules.Vk.{vk_apply, vk_apply_type, vk_verify, vk_expects, vk_default}
use hivekit.Repair.Modules.Hbin.{hbin_apply, hbin_apply_type, hbin_verify, hbin_expects}
use hivekit.Repair.Modules.Regf.{
  regf_apply, regf_apply_type, regf_verify, regf_validate, regf_expects,
}
use hivekit.Repair.Modules.Local.{ModuleName, nk, regf, hbin, vk, module_of}

-- What a write that returns has done.
record HasPut (b b' : Bytes) (off v : ℕ) : Type 0 where
  fits : off + 4 ≤ length b'
  reads : peek 4 b' off ≡ v
  front : slice 4 0 b' ≡ slice 4 0 b

put_at-HasPut :
    (b : Bytes) (off v : ℕ)
    → v < 2 ^ 32
    → 4 ≤ off
    → (applied_to b (put_at b off v)).1 ≡ true
    → HasPut b (applied_to b (put_at b off v)).0 off v
unfolding put_at
put_at-HasPut b off v hv ho h = elim (Bool-cases (leb (off + 4) (length b))) [
  | inr out ↦ ground arith
  | inl fits ↦ rw fits (record {
    fits = rw length-poke (ground arith);
    reads = peek-poke_self 4 v off b hv (ground arith);
    front = slice-poke_above (le_bytes 4 v) off b 4 0 ho;
  })
]

-- The value that a module expects back is a uint32.
abbrev IsUint32 : Option ℕ → Type 0
IsUint32 none = Unit {0}
IsUint32 (some v) = v < 2 ^ 32

-- The first test of every Verify, and the one of the value.
abbrev Passes : Bytes → ℕ → Bool → Type 0
Passes b' off test = (not (ltb (length b') ((off + 4) % 2 ^ 64)) && test) ≡ true

replaced-Passes :
    (b : Bytes) (off : ℕ) (e : Option ℕ)
    → IsUint32 e
    → 4 ≤ off
    → (applied_to b (apply_replace b off e)).1 ≡ true
    → Passes
        (applied_to b (apply_replace b off e)).0
        off
        (matches (peek 4 (applied_to b (apply_replace b off e)).0 off) e)
replaced-Passes b off none u ho h = cc
replaced-Passes b off (some v) u ho h = ground (arith, put_at-HasPut b off v u ho h)

put-Passes :
    (b : Bytes) (off v : ℕ)
    → v < 2 ^ 32
    → 4 ≤ off
    → (applied_to b (put_at b off v)).1 ≡ true
    → Passes
        (applied_to b (put_at b off v)).0
        off
        (peek 4 (applied_to b (put_at b off v)).0 off == v)
put-Passes b off v u ho h = ground (arith, put_at-HasPut b off v u ho h)

default-lt : (e : Option ℕ) → IsUint32 e → vk_default e < 2 ^ 32
default-lt none u = omega arith
default-lt (some v) u = u

module _ (b : Bytes) (d : Diagnostic) (u : IsUint32 d.expected) (ho : 4 ≤ d.offset) where
  nk-Passes :
      (t : RepairType)
      → (applied_to b (nk_apply_type t b d)).1 ≡ true
      → Passes
          (applied_to b (nk_apply_type t b d)).0
          d.offset
          (nk_expects t (peek 4 (applied_to b (nk_apply_type t b d)).0 d.offset) d.expected)
  nk-Passes default h = put-Passes b d.offset invalid_offset (omega arith) ho h
  nk-Passes replace h = replaced-Passes b d.offset d.expected u ho h
  nk-Passes _ h = cc

  vk-Passes :
      (t : RepairType)
      → (applied_to b (vk_apply_type t b d)).1 ≡ true
      → Passes
          (applied_to b (vk_apply_type t b d)).0
          d.offset
          (vk_expects t (peek 4 (applied_to b (vk_apply_type t b d)).0 d.offset) d.expected)
  vk-Passes default h = put-Passes b d.offset (vk_default d.expected) (default-lt d.expected u) ho h
  vk-Passes replace h = replaced-Passes b d.offset d.expected u ho h
  vk-Passes truncate h = replaced-Passes b d.offset d.expected u ho h
  vk-Passes _ h = cc

  hbin-Passes :
      (t : RepairType)
      → (applied_to b (hbin_apply_type t b d)).1 ≡ true
      → Passes
          (applied_to b (hbin_apply_type t b d)).0
          d.offset
          (hbin_expects t (peek 4 (applied_to b (hbin_apply_type t b d)).0 d.offset) d.expected)
  hbin-Passes replace h = replaced-Passes b d.offset d.expected u ho h
  hbin-Passes default h = ground (arith, replaced-Passes b d.offset d.expected u ho h)
  hbin-Passes _ h = cc

  regf-Passes :
      (t : RepairType)
      → (applied_to b (regf_apply_type t b d)).1 ≡ true
      → Passes
          (applied_to b (regf_apply_type t b d)).0
          d.offset
          (regf_expects t (peek 4 (applied_to b (regf_apply_type t b d)).0 d.offset) d.expected)
  regf-Passes replace h = replaced-Passes b d.offset d.expected u ho h
  regf-Passes default h = replaced-Passes b d.offset d.expected u ho h
  regf-Passes _ h = cc

  put-front : (v : ℕ) → take 4 (applied_to b (put_at b d.offset v)).0 ≡ take 4 b
  unfolding put_at slice
  put-front v = ground (arith, slice-poke_above (le_bytes 4 v) d.offset b 4 0 ho)

  replaced-front : (e : Option ℕ) → take 4 (applied_to b (apply_replace b d.offset e)).0 ≡ take 4 b
  replaced-front none = refl
  replaced-front (some v) = put-front v

  regf-front : (t : RepairType) → take 4 (applied_to b (regf_apply_type t b d)).0 ≡ take 4 b
  regf-front replace = replaced-front d.expected
  regf-front default = replaced-front d.expected
  regf-front _ = refl

  regf-signed : regf_validate b d ≡ true → bytes_equal (take 4 b) regf_signature ≡ true
  unfolding regf_validate
  regf-signed h = ground arith

-- A repair with a uint32 value, behind the first four bytes of the file, that a registered module
-- finds valid and applies without an error, passes that module's Verify.
pub validated_repair_verifies :
    (n : ModuleName) (b : Bytes) (d : Diagnostic)
    → IsUint32 d.expected
    → 4 ≤ d.offset
    → (module_of n).validate b d ≡ true
    → ((module_of n).apply b d).1 ≡ true
    → (module_of n).verify ((module_of n).apply b d).0 d ≡ true
unfolding module_of nk_apply nk_verify vk_apply vk_verify hbin_apply hbin_verify regf_apply
    regf_verify
validated_repair_verifies nk b d u ho valid h = nk-Passes b d u ho (type_of d.repair) h
validated_repair_verifies vk b d u ho valid h = vk-Passes b d u ho (type_of d.repair) h
validated_repair_verifies hbin b d u ho valid h = hbin-Passes b d u ho (type_of d.repair) h
validated_repair_verifies regf b d u ho valid h =
    rw (regf-front b d u ho (type_of d.repair), regf-signed b d u ho valid)
      (ground (arith, regf-Passes b d u ho (type_of d.repair) h))
