-- ===== src/Jwt/Preshared/Tests.antt =====
-- `Verify` with a preshared key on a concrete request.
use jwtproxy.Common.{ℕ, ◌*◌, ◌≡◌, refl, true, [], ◌∷◌, codes, lookup, bytes_eq, arith}
use jwtproxy.Common.Int.{pos, ◌+ℤ◌}
use jwtproxy.Common.Result.{ok}
use jwtproxy.Value.{Claims, str, int64}
use jwtproxy.Http.{header_get, equal_fold}
use jwtproxy.Time.{Time, minutes, add, sub, negate, from_unix}
use jwtproxy.Jwt.Plain.{plain, upstream, one_url, bearing, new_to_all}
use jwtproxy.Jwt.Library.{Jose}
use jwtproxy.Jwt.Verify
use jwtproxy.Jwt.Verify.{
  Token, verify, parse_token, check_times, check_signature, verify_nonce, verify_key,
  verify_audience,
}
use jwtproxy.Jwt.Verify.Checked.{IsOrdinary}
use jwtproxy.Jwt.Verify.Accepted.{IsAccepted}
use jwtproxy.Jwt.Preshared.{Preshared, get_preshared_key, preshared_reader, preshared-verify}

abbrev pub claims : Claims
claims =
    (codes "iss", str (codes "jwtproxy"))
    ∷ (codes "aud", str (codes "http://a.b"))
    ∷ (codes "iat", int64 (pos 1000))
    ∷ (codes "nbf", int64 (pos 990))
    ∷ (codes "exp", int64 (pos 1060))
    ∷ (codes "jti", str (codes "n1"))
    ∷ []

abbrev pub jose : Jose
jose = plain claims (codes "ok")

abbrev pub clock : ℕ → Time × ℕ
clock n = (pos n, n)

abbrev pub now : ℕ
now = 1005 * 1000000000

abbrev preshared : Preshared one_url jose
preshared = record { public_key = tt; issuer = codes "jwtproxy" }

accepted :
    (verify one_url jose clock
      (preshared_reader one_url jose preshared)
      new_to_all
      bearing
      upstream
      (minutes 5)
      (minutes 5)
      now).0
    ≡ ok claims
unfolding verify parse_token Verify.check_claims check_times verify_nonce verify_key check_signature
    verify_audience lookup bytes_eq from_unix add sub negate header_get ◌+ℤ◌ preshared_reader
    get_preshared_key
accepted = refl

pub five_minutes-IsOrdinary : IsOrdinary (minutes 5)
five_minutes-IsOrdinary = record { above = omega arith; below = omega arith }

preshared-verify_example :
    (t : Token jose) × (a : IsAccepted one_url jose clock
      (preshared_reader one_url jose preshared)
      new_to_all
      bearing
      upstream
      (minutes 5)
      (minutes 5)
      now
      t)
    × (equal_fold one_url a.subject.iss preshared.issuer ≡ true)
    × (equal_fold one_url a.subject.kid (jose.public_key_id preshared.public_key) ≡ true)
    × (a.key ≡ preshared.public_key)
preshared-verify_example =
    preshared-verify one_url jose preshared clock new_to_all bearing upstream (minutes 5)
      (minutes 5) now claims five_minutes-IsOrdinary five_minutes-IsOrdinary accepted
