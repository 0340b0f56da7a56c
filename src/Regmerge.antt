-- ===== src/Regmerge.antt =====
-- internal/regmerge: the optimiser of edit operations, one child for each file of the package.
pub mod Paths
pub mod Ordering
pub mod Optimizer
