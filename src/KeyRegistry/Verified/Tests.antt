-- ===== src/KeyRegistry/Verified/Tests.antt =====
-- `Verify` with a registry that answers every request with status 200.
use jwtproxy.Common.{ℕ, ◌≡◌, refl, lookup, bytes_eq}
use jwtproxy.Common.Int.{◌+ℤ◌}
use jwtproxy.Common.Result.{ok}
use jwtproxy.KeyServer.{Reader}
use jwtproxy.Http.{header_get, header_add, header_del, header_set, http_ok}
use jwtproxy.Time.{minutes, add, sub, negate, from_unix}
use jwtproxy.Jwt.Plain.{upstream, one_url, bearing, new_to_all}
use jwtproxy.Jwt.Preshared.Tests.{claims, jose, clock, now, five_minutes-IsOrdinary}
use jwtproxy.Jwt.Verify
use jwtproxy.Jwt.Verify.{
  Token, verify, parse_token, check_times, check_signature, verify_nonce, verify_key,
  verify_audience,
}
use jwtproxy.Jwt.Verify.Accepted.{IsAccepted}
use jwtproxy.KeyRegistry.{abs_url, prepare_request, read_response, fetch}
use jwtproxy.KeyRegistry.Tests.{lib, krc, answers}
use jwtproxy.KeyRegistry.Verified.{NeverPanics, registry_reader, IsServed, registry_reader-verify}

-- Every path parses.
addressed : NeverPanics jose lib krc
unfolding abs_url
addressed issuer key_id = (upstream, refl)

-- The registry's status never changes, and the state is the clock's.
abbrev reader : Reader ℕ Unit
reader = registry_reader jose lib answers krc addressed (λ w. http_ok) (λ n w. w)

accepted :
    (verify one_url jose clock reader new_to_all bearing upstream (minutes 5) (minutes 5) now).0
    ≡ ok claims
unfolding verify parse_token Verify.check_claims check_times verify_nonce verify_key check_signature
    verify_audience lookup bytes_eq from_unix add sub negate header_get header_add header_del
    header_set ◌+ℤ◌ registry_reader addressed fetch abs_url prepare_request read_response
accepted = refl

registry_reader-verify_example :
    (t : Token jose) × (a : IsAccepted one_url jose clock reader new_to_all bearing upstream
      (minutes 5)
      (minutes 5)
      now
      t)
    × (claims ≡ t.claims)
    × IsServed jose lib answers krc a.subject.iss a.subject.kid a.key http_ok
registry_reader-verify_example =
    registry_reader-verify jose lib answers krc addressed (λ w. http_ok) (λ n w. w) one_url clock
      new_to_all bearing upstream (minutes 5) (minutes 5) now claims five_minutes-IsOrdinary
      five_minutes-IsOrdinary accepted
