-- ===== src/Jwt/Library.antt =====
-- What jwt/jwt.go uses of go-oidc, which is not modelled: bearer tokens, parsed JWTs and their claims,
-- keys, signers and verifiers. The laws that a proof needs are hypotheses of that proof.
use jwtproxy.Common.{Bool, Option, List, Bytes}
use jwtproxy.Common.Result.{Error, Result}
use jwtproxy.Value.{Claims}
use jwtproxy.Http.{Request}
use jwtproxy.Time.{Time}

pub record Jose : Type 1 where
  -- oidc.ExtractBearerToken
  pub extract_bearer_token : Request → Result Bytes
  -- jose.JWT: ParseJWT, Claims(), Header, Signature and Data()
  pub Jwt : Type 0
  pub parse_jwt : Bytes → Result Jwt
  pub claims : Jwt → Result Claims
  pub header : Jwt → List (Bytes × Bytes)
  pub signature : Jwt → Bytes
  pub signed_data : Jwt → Bytes
  -- Claims.StringClaim and Claims.TimeClaim: the value, whether it exists, the error
  pub string_claim : Claims → Bytes → Bytes × Bool × Option Error
  pub time_claim : Claims → Bytes → Time × Bool × Option Error
  -- key.PublicKey: ID(), Verifier(), and the verifier's Verify
  pub PublicKey : Type 0
  pub Verifier : Type 0
  pub public_key_id : PublicKey → Bytes
  pub verifier : PublicKey → Result Verifier
  pub verify_signature : Verifier → Bytes → Bytes → Option Error
  -- key.PrivateKey: ID() and Signer(); jose.NewSignedJWT and Encode()
  pub PrivateKey : Type 0
  pub Signer : Type 0
  pub private_key_id : PrivateKey → Bytes
  pub signer : PrivateKey → Signer
  pub new_signed_jwt : Claims → Signer → Result Jwt
  pub encode : Jwt → Bytes
