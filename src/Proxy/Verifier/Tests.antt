-- ===== src/Proxy/Verifier/Tests.antt =====
-- The verifier's handler on concrete requests.
use jwtproxy.Common.{ℕ, ◌*◌, ◌≡◌, refl, none, some, [], ◌∷◌, List, codes, lookup, bytes_eq, arith}
use jwtproxy.Common.Int.{pos, ◌+ℤ◌}
use jwtproxy.Common.Affix.{has_prefix, drop_prefix, trim_prefix, ends_with}
use jwtproxy.Common.Result.{text}
use jwtproxy.Value.{Claims, str, int64, deep_equal}
use jwtproxy.Http.{Request, header_get}
use jwtproxy.Time.{Time, minutes, add, sub, negate, from_unix}
use jwtproxy.Claims.Static
use jwtproxy.Claims.Static.{handle, construct}
use jwtproxy.Jwt.Plain.{plain, upstream, one_url, bearing, request, serve_key, new_to_all}
use jwtproxy.Jwt.Library.{Jose}
use jwtproxy.Jwt.Verify.{
  verify, parse_token, check_times, check_signature, verify_nonce, verify_key, verify_audience,
}
use jwtproxy.Jwt.Verify
use jwtproxy.Jwt.Verify.Checked.{IsOrdinary}
use jwtproxy.Proxy.Router.{
  RoundTripper, route, default_round_tripper, single_joining_slash, join_query,
}
use jwtproxy.Proxy.Verifier.{Handle, Handled, run_verifiers, forbidden, verifier_handler}
use jwtproxy.Proxy.Verifier.Laws.{forwarded_verified}

-- a token for http://a.b, issued at 1000 s and good until 1060 s
abbrev claims : Claims
claims =
    (codes "iss", str (codes "jwtproxy"))
    ∷ (codes "aud", str (codes "http://a.b"))
    ∷ (codes "iat", int64 (pos 1000))
    ∷ (codes "nbf", int64 (pos 990))
    ∷ (codes "exp", int64 (pos 1060))
    ∷ (codes "jti", str (codes "n1"))
    ∷ []

abbrev jose : Jose
jose = plain claims (codes "ok")

abbrev clock : ℕ → Time × ℕ
clock n = (pos n, n)

abbrev now : ℕ
now = 1005 * 1000000000

-- The static verifier, whose state is its own.
abbrev issued_by : List (Handle ℕ)
issued_by = (λ r c w. (handle (construct ((codes "iss", str (codes "jwtproxy")) ∷ [])) r c, w)) ∷ []

abbrev handles : Request × RoundTripper → ℕ → Handled × ℕ
handles =
    verifier_handler one_url jose clock serve_key new_to_all issued_by upstream upstream (minutes 5)
      (minutes 5)

evaluation : Unit {0}
unfolding verifier_handler run_verifiers handle construct Static.check_claims deep_equal verify
    parse_token Verify.check_claims check_times verify_nonce verify_key check_signature
    verify_audience lookup bytes_eq from_unix add sub negate header_get ◌+ℤ◌ route has_prefix
    drop_prefix trim_prefix ends_with single_joining_slash join_query text
evaluation = tt

forwarded : (handles (bearing, default_round_tripper) now).0.response ≡ none
unfolding evaluation
forwarded = refl

five_minutes-IsOrdinary : IsOrdinary (minutes 5)
five_minutes-IsOrdinary = record { above = omega arith; below = omega arith }

forwarded_verified_example :
    (
      (handles (bearing, default_round_tripper) now).0.request,
      (handles (bearing, default_round_tripper) now).0.round_tripper,
    )
    ≡ route one_url upstream (bearing, default_round_tripper)
forwarded_verified_example =
    (forwarded_verified one_url jose clock serve_key new_to_all issued_by upstream upstream
      (minutes 5) (minutes 5) five_minutes-IsOrdinary five_minutes-IsOrdinary bearing
      default_round_tripper now forwarded).1

-- A request without a token is refused.
refused :
    (handles (request, default_round_tripper) now).0.response
    ≡ some (forbidden (codes "jwtproxy: unable to verify request: No JWT found"))
unfolding evaluation
refused = refl
