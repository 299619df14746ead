-- ===== src/KeyServer.antt =====
-- The interfaces of jwt/keyserver/keyserver.go and jwt/noncestorage/noncestorage.go, over the state W
-- that their implementations change.
pub mod PublishResult
pub mod Guard
mod Tests
use jwtproxy.Common.{Bool, Bytes}
use jwtproxy.Common.Result.{Result}
use jwtproxy.Time.{Time}

-- what the code uses of a component: its method, without `Stop`
pub record Reader (W PublicKey : Type 0) : Type 0 where
  pub get_public_key : Bytes → Bytes → W → Result PublicKey × W

pub record NonceStorage (W : Type 0) : Type 0 where
  pub verify : Bytes → Time → W → Bool × W
