-- ===== src/Claims.antt =====
-- Claims verifiers: jwt/claims.
pub mod Static
