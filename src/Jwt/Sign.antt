-- ===== src/Jwt/Sign.antt =====
-- `Sign` of jwt/jwt.go: a token for the origin of the request, behind the values that the header has.
pub mod Verified
pub mod Boundary
pub mod Tests
use jwtproxy.Common.{ℕ, ◌++◌, List, [], ◌∷◌, Option, none, some, Bytes, codes}
use jwtproxy.Common.Int.{ℤ}
use jwtproxy.Common.Result.{Result, ok, err, ◌>>=◌}
use jwtproxy.Value.{Claims, str, int64}
use jwtproxy.Http.{Url, Request, Header, header_add}
use jwtproxy.Time.{Clock, Time, Duration, add, negate, unix}
use jwtproxy.Nonce.{generate_nonce}
use jwtproxy.Config.{SignerParams}
use jwtproxy.Jwt.Library.{Jose}
use jwtproxy.Jwt.Verify.{origin}

-- The claims, from three readings of the clock and the nonce.
abbrev pub make_claims : Request → SignerParams → Time → Time → Time → Bytes → Claims
make_claims req params t1 t2 t3 nonce =
    (codes "iss", str params.issuer)
    ∷ (codes "aud", str (origin req.url))
    ∷ (codes "iat", int64 (unix t1))
    ∷ (codes "nbf", int64 (unix (add t2 (negate params.max_skew))))
    ∷ (codes "exp", int64 (unix (add t3 params.expiration_time)))
    ∷ (codes "jti", str nonce)
    ∷ []

-- `req.Header.Add("Authorization", "Bearer "+jwt.Encode())`
unfoldable pub add_token : (jose : Jose) → Request → jose.Jwt → Request
add_token jose req jwt = record req {
  header = header_add (codes "Authorization") (codes "Bearer " ++ jose.encode jwt) req.header;
}

-- what `Sign` changes outside the request: the clock is read, and `randSource` is drawn from
pub record Entropy (clock : Clock) (S : Type 0) : Type 0 where
  pub time : clock.State
  pub source : S

module _ (jose : Jose) (clock : Clock) {S : Type 0} (int63 : S → ℕ × S) where
  -- `none` is the panic of `generateNonce` at a negative length.
  unfoldable pub sign :
      Request
      → jose.PrivateKey
      → SignerParams
      → Entropy clock S
      → Option (Result Request × Entropy clock S)
  sign req key params w =
      let (t1, c1) = clock.read w.time in
      let (t2, c2) = clock.read c1 in
      let (t3, c3) = clock.read c2 in
      elim (generate_nonce int63 params.nonce_length w.source) [
        | none ↦ none
        | some (nonce, source) ↦ some (
          (do
            jwt ← jose.new_signed_jwt (make_claims req params t1 t2 t3 nonce) (jose.signer key)
            ok (add_token jose req jwt)),
          record { time = c3; source = source },
        )
      ]
