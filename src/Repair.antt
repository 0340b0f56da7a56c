-- ===== src/Repair.antt =====
-- internal/repair: the repair engine. The children model its types, the transaction log, the
-- validator and the engine.
pub mod Types
pub mod Log
pub mod Validator
pub mod Engine
pub mod Modules
