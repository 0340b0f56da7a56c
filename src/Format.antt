-- ===== src/Format.antt =====
-- internal/format: the on-disk structures of a hive, one child for each file.
pub mod Consts
pub mod Align
pub mod Hbin
pub mod Encoding
pub mod Stores
pub mod Lists
pub mod Vk
pub mod Nk
pub mod Regf
pub mod Time
