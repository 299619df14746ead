-- ===== src/KeyServer/Guard.antt =====
-- What `Verify` of jwt/jwt.go relies on of a nonce storage: a nonce that it accepts is refused while the
-- token that carried it lives.
use jwtproxy.Common.{true, false, ◌≡◌, Bytes}
use jwtproxy.Common.Int.{◌≤ℤ◌}
use jwtproxy.Time.{Time}
use jwtproxy.KeyServer.{NonceStorage}

pub record Guard {W : Type 0} (read_clock : W → Time × W) (storage : NonceStorage W) : Type 1 where
  -- the nonce is held up to this instant
  pub Remembers : Bytes → Time → W → Type 0
  -- the storage can hold a nonce up to this instant
  pub IsKeepable : Time → W → Type 0
  pub accepted :
      (nonce : Bytes) (expiration : Time) (w : W)
      → IsKeepable expiration w
      → (storage.verify nonce expiration w).0 ≡ true
      → Remembers nonce expiration (storage.verify nonce expiration w).1
  pub refused :
      (nonce : Bytes) (held expiration : Time) (w : W)
      → Remembers nonce held w
      → (read_clock w).0 ≤ℤ held
      → (storage.verify nonce expiration w).0 ≡ false
  pub kept :
      (nonce : Bytes) (held : Time) (w : W)
      → Remembers nonce held w
      → Remembers nonce held (read_clock w).1
