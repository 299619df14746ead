-- ===== src/Jwt/Sign/Boundary.antt =====
-- Where a token that `Sign` has made is not accepted: a second passes while it is made, or the request
-- has an Authorization header of its own.
use jwtproxy.Common.{◌++◌, ◌≡◌, ◌≢◌, some, Bytes, codes, lookup}
use jwtproxy.Common.Int.{◌≤ℤ◌, ◌<ℤ◌}
use jwtproxy.Common.Result.{ok}
use jwtproxy.Value.{Claims}
use jwtproxy.Http.{Url, UrlLib, Request, header_get, lookup-header_add}
use jwtproxy.Time.{Time, Duration, unix}
use jwtproxy.Config.{SignerParams}
use jwtproxy.KeyServer.{Reader, NonceStorage}
use jwtproxy.Jwt.Library.{Jose}
use jwtproxy.Jwt.Verify.{verify}
use jwtproxy.Jwt.Verify.Checked.{IsOrdinary}
use jwtproxy.Jwt.Verify.Accepted.{IsParsed, verify_sound, parsed_once}
use jwtproxy.Jwt.Sign.{make_claims, add_token}
use jwtproxy.Jwt.Sign.Verified.{IsReadBack, token, not-IsTimely_boundary}

module _ (lib : UrlLib) (jose : Jose) {W : Type 0} (verifier_clock : W → Time × W)
    (key_server : Reader W jose.PublicKey) (nonce_verifier : NonceStorage W) where
  -- If the clock passes a whole second between the reading for 'iat' and the reading for 'exp', and the
  -- signer's expiration time is not below the verifier's time limit (both are five minutes by default),
  -- then no request that carries the token is accepted, whenever it arrives.
  pub boundary_refused :
      (req : Request) (params : SignerParams) (t1 t2 t3 : Time) (nonce : Bytes)
      (key : jose.PrivateKey) (jwt : jose.Jwt)
      (back : IsReadBack jose (make_claims req params t1 t2 t3 nonce) key jwt) (received : Request)
      (audience : Url) (max_skew max_ttl : Duration) (v : W) (c : Claims)
      → unix t1 <ℤ unix t3
      → max_ttl ≤ℤ params.expiration_time
      → IsOrdinary max_skew
      → IsOrdinary max_ttl
      → IsParsed jose received (record { jwt = jwt; claims = back.decoded })
      → (verify lib jose verifier_clock key_server nonce_verifier received audience max_skew max_ttl
          v).0
        ≢ ok c
  boundary_refused req params t1 t2 t3 nonce key jwt back received audience skew ttl v c crossed
        long hs ht p h =
      let (t, a, same) =
        verify_sound lib jose verifier_clock key_server nonce_verifier received audience skew ttl v
          c hs ht h in
      not-IsTimely_boundary jose req params t1 t2 t3 nonce key jwt back (verifier_clock v).0 skew
        ttl crossed long
        (rw
          (parsed_once jose received t (token jose req params t1 t2 t3 nonce key jwt back) a.parsed
            p)
          at a.checked.timely)

-- `Header.Add` puts the token behind the values that are there, and `Header.Get`, by which the verifier
-- reads the header, returns the first value: the header of the client wins over the token.
add_token_ignored :
    (jose : Jose) (req : Request) (jwt : jose.Jwt) (old : Bytes)
    → lookup (codes "Authorization") req.header ≡ some old
    → header_get (codes "Authorization") (add_token jose req jwt).header ≡ old
unfolding header_get add_token
add_token_ignored jose req jwt old e = rw (
  lookup-header_add (codes "Authorization") (codes "Bearer " ++ jose.encode jwt) req.header old e,
  header_get,
)
