-- ===== src/Repair/Types.antt =====
-- internal/repair/types.go and module.go: diagnostics, repair actions and the module interface.
use hivekit.Common.{ℕ, Bool, Option}
use hivekit.Common.Bytes.{Bytes}

pub data RepairType : Type 0 where
  truncate rebuild remove replace default : RepairType

pub record RepairAction : Type 0 where
  pub type : RepairType
  pub risk : ℕ
  pub auto_apply : Bool

-- The names of structures that the validator tells apart.
pub data Structure : Type 0 where
  regf hbin nk vk cell lh lf li ri sk db other : Structure

-- What the engine and the modules read of a diagnostic. Severity, category, issue, context and the
-- actual value are only reported.
pub record Diagnostic : Type 0 where
  pub offset : ℕ
  pub structure : Structure
  pub expected : Option ℕ
  pub repair : Option RepairAction

-- The interface RepairModule. `validate` and `verify` say that there is no error; `apply` returns the
-- buffer as it leaves it, and whether it returned without an error.
pub record RepairModule : Type 0 where
  pub can_repair : Diagnostic → Bool
  pub validate : Bytes → Diagnostic → Bool
  pub apply : Bytes → Diagnostic → Bytes × Bool
  pub verify : Bytes → Diagnostic → Bool
