-- ===== src/Repair/Modules/Local.antt =====
-- internal/reader/repair.go: the registered modules, and what each of them leaves alone.
use hivekit.Common.{
  ℕ, ◌+◌, ◌≤◌, sym, arith, List, [], ◌∷◌, map, All, true, false, Option, none, some, Outcome, ok,
  panic, length, leb, if◌then◌else◌,
}
use hivekit.Common.Bytes.{Bytes, poke, le_bytes, length-poke, length-le_bytes}
use hivekit.Common.Points.{get_elem?-poke}
use hivekit.Repair.Types.{
  RepairType, truncate, replace, default, RepairModule, Diagnostic, Structure,
}
use hivekit.Repair.Log.Rollback.{SameOutside, SameOutside-refl}
use hivekit.Repair.Validator.{estimate_repair_size}
use hivekit.Repair.Engine.Undo.{size_of, IsLocal}
use hivekit.Repair.Modules.Base.{ApplyError, put_at, apply_replace, applied_to, type_of}
use hivekit.Repair.Modules.Nk.{nk_module, nk_apply, nk_apply_type}
use hivekit.Repair.Modules.Vk.{vk_module, vk_apply, vk_apply_type}
use hivekit.Repair.Modules.Hbin.{hbin_module, hbin_apply, hbin_apply_type}
use hivekit.Repair.Modules.Regf.{regf_module, regf_apply, regf_apply_type}

-- The modules by their names.
pub data ModuleName : Type 0 where
  nk regf hbin vk : ModuleName

unfoldable pub module_of : ModuleName → RepairModule
unfolding nk_module vk_module hbin_module regf_module
module_of nk = nk_module
module_of regf = regf_module
module_of hbin = hbin_module
module_of vk = vk_module

pub registered : List RepairModule
unfolding module_of
registered = map module_of (nk ∷ regf ∷ hbin ∷ vk ∷ [])

le-size_of : (s : Structure) → 4 ≤ estimate_repair_size s
unfolding estimate_repair_size
le-size_of Structure.regf = omega arith
le-size_of _ = omega arith

-- Four bytes at the diagnostic's offset are inside its window.
poke-SameOutside :
    (b : Bytes) (d : Diagnostic) (v : ℕ)
    → SameOutside d.offset (size_of d) b (poke (le_bytes 4 v) d.offset b)
poke-SameOutside b d v = record {
  len = sym (length-poke (le_bytes 4 v) d.offset b);
  bytes = λ x. ground (
    arith,
    get_elem?-poke (le_bytes 4 v) d.offset b x,
    length-le_bytes 4 v,
    le-size_of d.structure,
  );
}

put_at-SameOutside :
    (b : Bytes) (d : Diagnostic) (v : ℕ)
    → SameOutside d.offset (size_of d) b (applied_to b (put_at b d.offset v)).0
unfolding put_at
put_at-SameOutside b d v =
    elim (leb (d.offset + 4) (length b))
      as (λ t.
        SameOutside d.offset (size_of d) b
          (applied_to b (if t then ok (poke (le_bytes 4 v) d.offset b) else panic)).0) [
            | true ↦ poke-SameOutside b d v
            | false ↦ SameOutside-refl d.offset (size_of d) b
          ]

-- What an Apply leaves alone.
abbrev Leaves : Bytes → Diagnostic → Outcome ApplyError Bytes → Type 0
Leaves b d r = SameOutside d.offset (size_of d) b (applied_to b r).0

replace-Leaves :
    (b : Bytes) (d : Diagnostic) (v : Option ℕ) → Leaves b d (apply_replace b d.offset v)
replace-Leaves b d none = SameOutside-refl d.offset (size_of d) b
replace-Leaves b d (some v) = put_at-SameOutside b d v

nk-Leaves : (t : RepairType) (b : Bytes) (d : Diagnostic) → Leaves b d (nk_apply_type t b d)
nk-Leaves default b d = put_at-SameOutside b d _
nk-Leaves replace b d = replace-Leaves b d d.expected
nk-Leaves _ b d = SameOutside-refl d.offset (size_of d) b

vk-Leaves : (t : RepairType) (b : Bytes) (d : Diagnostic) → Leaves b d (vk_apply_type t b d)
vk-Leaves default b d = put_at-SameOutside b d _
vk-Leaves replace b d = replace-Leaves b d d.expected
vk-Leaves truncate b d = replace-Leaves b d d.expected
vk-Leaves _ b d = SameOutside-refl d.offset (size_of d) b

hbin-Leaves : (t : RepairType) (b : Bytes) (d : Diagnostic) → Leaves b d (hbin_apply_type t b d)
hbin-Leaves replace b d = replace-Leaves b d d.expected
hbin-Leaves default b d = replace-Leaves b d d.expected
hbin-Leaves _ b d = SameOutside-refl d.offset (size_of d) b

regf-Leaves : (t : RepairType) (b : Bytes) (d : Diagnostic) → Leaves b d (regf_apply_type t b d)
regf-Leaves replace b d = replace-Leaves b d d.expected
regf-Leaves default b d = replace-Leaves b d d.expected
regf-Leaves _ b d = SameOutside-refl d.offset (size_of d) b

-- Each of the four registered repair modules keeps the law of the engine's interface: whatever the
-- bytes and the diagnostic, its Apply keeps the length of the buffer and every byte outside the
-- window of the diagnostic, errors and panics included.
pub module_of-IsLocal : (n : ModuleName) → IsLocal (module_of n)
unfolding module_of nk_apply vk_apply hbin_apply regf_apply
module_of-IsLocal nk = record { local = λ b d. nk-Leaves (type_of d.repair) b d }
module_of-IsLocal regf = record { local = λ b d. regf-Leaves (type_of d.repair) b d }
module_of-IsLocal hbin = record { local = λ b d. hbin-Leaves (type_of d.repair) b d }
module_of-IsLocal vk = record { local = λ b d. vk-Leaves (type_of d.repair) b d }

registered-IsLocal : All IsLocal registered
unfolding registered
registered-IsLocal = (
  module_of-IsLocal nk,
  (module_of-IsLocal regf, (module_of-IsLocal hbin, (module_of-IsLocal vk, tt))),
)
