-- ===== src/Merge.antt =====
-- hive/merge/v2: the merge engine. The children model one file each.
pub mod Cells
pub mod Subkeys
pub mod Names
pub mod Trie
pub mod Plan
