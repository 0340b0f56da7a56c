-- ===== src/Regtext/Parser/Returns.antt =====
-- The answers of ParseReg.
use hivekit.Common.Bytes.{Bytes}
