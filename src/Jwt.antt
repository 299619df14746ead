-- ===== src/Jwt.antt =====
-- `Sign`, `Verify` and `verifyAudience` of jwt/jwt.go.
pub mod Library
pub mod Verify
pub mod Sign
pub mod Plain
pub mod Preshared
