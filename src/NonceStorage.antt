-- ===== src/NonceStorage.antt =====
-- Nonce storages: jwt/noncestorage.
pub mod Local
