-- ===== src/Proxy/Signer.antt =====
-- The handler of `NewJWTSignerHandler` of jwt/proxy_handlers.go, and its `errorResponse`: the request
-- gets a token, and goes on to where it was going.
pub mod Laws
mod Tests
use jwtproxy.Common.{ℕ, ◌++◌, Option, none, some, Bytes, codes}
use jwtproxy.Common.Result.{Error, Result, ok, err, text}
use jwtproxy.Http.{Request, Response, http_bad_gateway}
use jwtproxy.Time.{Clock}
use jwtproxy.Config.{SignerParams}
use jwtproxy.Jwt.Library.{Jose}
use jwtproxy.Jwt.Sign.{Entropy, sign}

-- `errorResponse`
unfoldable pub error_response : Error → Response
error_response e = record {
  status = http_bad_gateway;
  body = codes "jwtproxy: unable to sign request: " ++ text e;
}

-- The provider of the private key has a state P of its own. The result is none where `Sign` panics.
module _ (jose : Jose) (clock : Clock) {S P : Type 0} (int63 : S → ℕ × S)
    (get_private_key : P → Result jose.PrivateKey × P) where
  unfoldable pub signer_handler :
      SignerParams
      → Request
      → P × Entropy clock S
      → Option ((Request × Option Response) × (P × Entropy clock S))
  signer_handler params r (p, w) =
      let (private_key, p') = get_private_key p in
      elim private_key [
        | err e ↦ some ((r, some (error_response e)), (p', w))
        | ok key ↦ elim (sign jose clock int63 r key params w) [
          | none ↦ none
          | some (err e, w') ↦ some ((r, some (error_response e)), (p', w'))
          | some (ok r', w') ↦ some ((r', none), (p', w'))
        ]
      ]
