-- ===== src/PrivateKey.antt =====
-- `Autogenerated` of jwt/privatekey/autogenerated/autogenerated.go: a key that is generated, published
-- in the key registry and rotated. Keys, results and channels that only matter by identity are numbers.
pub mod Rotation
pub mod Preshared
pub mod Provider
pub mod Files
pub mod Origin
pub mod Laws
pub mod Started
pub mod Stopping
pub mod Published
pub mod Registered
pub mod Tests
use jwtproxy.Common.{◌-◌, ◌*◌, ◌^◌, ltb, Option, none, some, Bytes, codes, if◌then◌else◌}
use jwtproxy.Common.Int.{pos, negsuc, ltb_ℤ}
use jwtproxy.Common.Result.{
  Error, Result, ok, err, message, public_key_not_found, public_key_expired, unknown_response,
}
use jwtproxy.Time.{Time, Duration, add}
use jwtproxy.KeyRegistry.Publish.{KeyPolicy}

-- the fields of `Autogenerated` that change
pub record Autogenerated (PrivateKey : Type 0) : Type 0 where
  pub active : Option PrivateKey
  pub pending : Option PrivateKey

-- What the constructor makes of a stored key: it is used, a new one is made, or the process ends
-- (log.Fatal).
pub data Stored (PrivateKey : Type 0) : Type 0 where
  uses : PrivateKey → Stored PrivateKey
  generates : Stored PrivateKey
  ends_process : Error → Stored PrivateKey

module _ {PrivateKey : Type 0} where
  -- `GetPrivateKey`
  unfoldable pub get_private_key : Autogenerated PrivateKey → Result PrivateKey
  get_private_key ag = elim ag.active [
    | none ↦ err (message (codes "No key is yet active"))
    | some key ↦ ok key
  ]

  -- Lines 82 to 102, on the stored key, if one could be loaded, and what the manager's `VerifyPublicKey`
  -- returns for it. An error that is none of the three sentinels only falls through.
  unfoldable pub check_stored : Result PrivateKey → (PrivateKey → Option Error) → Stored PrivateKey
  check_stored (err e) verify_public_key = generates
  check_stored (ok key) verify_public_key = elim (verify_public_key key) [
    | none ↦ uses key
    | some public_key_expired ↦ ends_process public_key_expired
    | some unknown_response ↦ ends_process unknown_response
    | some _ ↦ generates
  ]

-- `rotateInterval * 2` on an int64, of an interval that is positive
abbrev doubled : Duration → Duration
doubled (pos n) = if ltb (2 * n) (2 ^ 63) then pos (2 * n) else negsuc (2 ^ 64 - 2 * n - 1)
doubled (negsuc n) = negsuc n

-- `policy` of `attemptPublish`: a key that is rotated lives for two intervals.
unfoldable pub rotation_policy : Time → Duration → KeyPolicy
rotation_policy now rotate_interval =
    if ltb_ℤ (pos 0) rotate_interval
    then record {
      expiration = some (add now (doubled rotate_interval));
      rotation_policy = some rotate_interval;
    }
    else record { expiration = none; rotation_policy = none }
