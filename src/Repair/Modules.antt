-- ===== src/Repair/Modules.antt =====
-- internal/repair: the modules that the reader registers with the engine. Each writes one uint32 at the
-- offset of its diagnostic, and each has its own checks before and after.
pub mod Base
pub mod Nk
pub mod Vk
pub mod Hbin
pub mod Regf
pub mod Local
pub mod Verified
