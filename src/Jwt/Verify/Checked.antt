-- ===== src/Jwt/Verify/Checked.antt =====
-- When the claims of a token pass the checks of `Verify`, said without the code.
use jwtproxy.Common.{
  Bool, true, false, ◌≡◌, ◌↔◌, inl, inr, Option, none, some, Bytes, codes, lookup, bytes_eq_iff,
  arith, Option-cases,
}
use jwtproxy.Common.Result.{Error, ok, Result-cases}
use jwtproxy.Common.Int.{◌+ℤ◌, ◌≤ℤ◌, ◌<ℤ◌}
use jwtproxy.Value.{Claims}
use jwtproxy.Http.{Url, UrlLib}
use jwtproxy.Time.Laws.{after-add-negate, sub-gt}
use jwtproxy.Time.{Time, Duration, max_duration, min_duration}
use jwtproxy.Jwt.Library.{Jose}
use jwtproxy.Jwt.Verify.{
  origin, verify_audience, is_missing, Token, Subject, check_times, check_claims,
}

-- a claim that is there, with no error
pub record IsPresent {A : Type 0} (r : A × Bool × Option Error) : Type 0 where
  pub found : r.1 ≡ true
  pub no_error : r.2 ≡ none

-- The audience parses to a URL whose scheme and host fold to those of the proxy's own audience.
abbrev pub IsAudience : UrlLib → Bytes → Url → Type 0
IsAudience lib aud expected =
    (u : Url) × (lib.parse aud ≡ ok u) × (lib.fold (origin u) ≡ lib.fold (origin expected))

verify_audience_iff :
    (lib : UrlLib) (aud : Bytes) (expected : Url)
    → (verify_audience lib aud expected ≡ true) ↔ IsAudience lib aud expected
unfolding verify_audience
verify_audience_iff lib aud expected =
    (sound, λ (u, e, same). rw (e, verify_audience) ((bytes_eq_iff _ _).1 same))
  where
    sound : verify_audience lib aud expected ≡ true → IsAudience lib aud expected
    sound h = elim (Result-cases (lib.parse aud)) [
      | inl (u, e) ↦ (u, e, (bytes_eq_iff _ _).0 (rw (e, verify_audience) at h))
      | inr (x, e) ↦ cc (rw (e, verify_audience) at h)
    ]

pub is_missing_iff :
    {A : Type 0} (r : A × Bool × Option Error) → (is_missing r.1 r.2 ≡ false) ↔ IsPresent r
is_missing_iff r =
    (λ h. record { found = ground arith; no_error = ground arith }, λ p. ground arith)

-- The times of the claims: the token has not expired, is valid already, was not issued after `now` by
-- more than the skew, and does not live longer than allowed.
pub record IsTimely (jose : Jose) (now : Time) (max_skew max_ttl : Duration) (claims : Claims)
    : Type 0 where
  pub has_exp : IsPresent (jose.time_claim claims (codes "exp"))
  pub has_nbf : IsPresent (jose.time_claim claims (codes "nbf"))
  pub has_iat : IsPresent (jose.time_claim claims (codes "iat"))
  pub not_expired : now ≤ℤ (jose.time_claim claims (codes "exp")).0
  pub not_early : (jose.time_claim claims (codes "nbf")).0 ≤ℤ now
  pub issued : (jose.time_claim claims (codes "iat")).0 ≤ℤ now +ℤ max_skew
  pub short :
      (jose.time_claim claims (codes "exp")).0
      ≤ℤ (jose.time_claim claims (codes "iat")).0 +ℤ max_ttl

pub record IsChecked (lib : UrlLib) (jose : Jose) (now : Time) (audience : Url)
    (max_skew max_ttl : Duration) (t : Token jose) (s : Subject) : Type 0 where
  pub kid : lookup (codes "kid") (jose.header t.jwt) ≡ some s.kid
  pub has_iss : IsPresent (jose.string_claim t.claims (codes "iss"))
  pub iss : (jose.string_claim t.claims (codes "iss")).0 ≡ s.iss
  pub has_aud : IsPresent (jose.string_claim t.claims (codes "aud"))
  pub aud : IsAudience lib (jose.string_claim t.claims (codes "aud")).0 audience
  pub timely : IsTimely jose now max_skew max_ttl t.claims
  pub exp : (jose.time_claim t.claims (codes "exp")).0 ≡ s.exp

-- the bounds of an int64 without its least and greatest values
pub record IsOrdinary (d : Duration) : Type 0 where
  pub above : min_duration <ℤ d
  pub below : d <ℤ max_duration

module _ (jose : Jose) (now : Time) (skew ttl : Duration) (ordinary_skew : IsOrdinary skew)
    (ordinary_ttl : IsOrdinary ttl) where
  abbrev subject : Claims → Bytes → Bytes → Subject
  subject claims kid iss = record {
    kid = kid;
    iss = iss;
    exp = (jose.time_claim claims (codes "exp")).0;
  }

  check_times_sound :
      (claims : Claims) (kid iss : Bytes) (s : Subject)
      → check_times jose now skew ttl claims kid iss ≡ ok s
      → IsTimely jose now skew ttl claims × (s ≡ subject claims kid iss)
  unfolding check_times
  check_times_sound claims kid iss s h =
      let exp = (jose.time_claim claims (codes "exp")).0 in
      let iat = (jose.time_claim claims (codes "iat")).0 in
      (
        record {
          has_exp = (is_missing_iff (jose.time_claim claims (codes "exp"))).0 (ground arith);
          has_nbf = (is_missing_iff (jose.time_claim claims (codes "nbf"))).0 (ground arith);
          has_iat = (is_missing_iff (jose.time_claim claims (codes "iat"))).0 (ground arith);
          not_expired = ground arith;
          not_early = ground arith;
          issued = (after-add-negate iat now skew ordinary_skew.above).0 (ground arith);
          short = (sub-gt exp iat ttl (omega arith) ordinary_ttl.below).0 (ground arith);
        },
        ground arith,
      )

  check_times_complete :
      (claims : Claims) (kid iss : Bytes)
      → IsTimely jose now skew ttl claims
      → check_times jose now skew ttl claims kid iss ≡ ok (subject claims kid iss)
  unfolding check_times
  check_times_complete claims kid iss h =
      let exp = (jose.time_claim claims (codes "exp")).0 in
      let iat = (jose.time_claim claims (codes "iat")).0 in
      let issued = (after-add-negate iat now skew ordinary_skew.above).1 h.issued in
      let short = (sub-gt exp iat ttl (omega arith) ordinary_ttl.below).1 h.short in
      ground (arith, issued, short)

  module _ (lib : UrlLib) (audience : Url) where
    pub check_claims_sound :
        (t : Token jose) (s : Subject)
        → check_claims lib jose now audience skew ttl t ≡ ok s
        → IsChecked lib jose now audience skew ttl t s
    unfolding check_claims
    check_claims_sound t s h = elim (Option-cases (lookup (codes "kid") (jose.header t.jwt))) [
      | inl e ↦ cc (rw (e, check_claims) at h)
      | inr (kid, e) ↦
          let iss = (jose.string_claim t.claims (codes "iss")).0 in
          let (timely, same) = check_times_sound t.claims kid iss s (ground arith) in
          record {
            kid = ground arith;
            has_iss = (is_missing_iff (jose.string_claim t.claims (codes "iss"))).0 (ground arith);
            iss = ground arith;
            has_aud = (is_missing_iff (jose.string_claim t.claims (codes "aud"))).0 (ground arith);
            aud =
                (verify_audience_iff lib (jose.string_claim t.claims (codes "aud")).0 audience).0
                  (ground arith);
            timely = timely;
            exp = ground arith;
          }
    ]

    pub check_claims_complete :
        (t : Token jose) (s : Subject)
        → IsChecked lib jose now audience skew ttl t s
        → check_claims lib jose now audience skew ttl t ≡ ok s
    unfolding check_claims
    check_claims_complete t s c =
        let iss = (jose.string_claim t.claims (codes "iss")).0 in
        let times = check_times_complete t.claims s.kid iss c.timely in
        let aud =
          (verify_audience_iff lib (jose.string_claim t.claims (codes "aud")).0 audience).1 c.aud in
        ground (arith, times, aud)
