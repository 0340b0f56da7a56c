-- ===== src/Regtext.antt =====
-- internal/regtext: the text of .reg files. Strings are their bytes.
pub mod Text
pub mod Hex
pub mod Values
pub mod Parser
pub mod Lines
pub mod Export
