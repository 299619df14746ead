-- ===== src/Jwt/Verify/Retention.antt =====
-- How long `Verify` makes the local nonce storage keep the nonce of a request that it accepts.
mod Tests
use jwtproxy.Common.{◌≡◌, ◌∙◌, sym, ap, refl, true, Bytes, codes, arith}
use jwtproxy.Common.Int.{◌+ℤ◌, ◌-ℤ◌, ◌≤ℤ◌, ◌<ℤ◌, +ℤ_parts}
use jwtproxy.Http.{Url, UrlLib, Request}
use jwtproxy.Time.{Clock, Time, Duration, max_duration, sub}
use jwtproxy.KeyServer.{Reader}
use jwtproxy.NonceStorage.Local.{CacheLib, lives, World, local_storage}
use jwtproxy.NonceStorage.Local
use jwtproxy.NonceStorage.Local.Replay.{reading_mono}
use jwtproxy.NonceStorage.Local.Retention.{
  duration_reading, set_reading, verify-lives, lives_bounded, lives_ever,
}
use jwtproxy.Jwt.Library.{Jose}
use jwtproxy.Jwt.Verify.{Token, verify}
use jwtproxy.Jwt.Verify.Checked.{IsOrdinary}
use jwtproxy.Jwt.Verify.Accepted.{IsAccepted, verify_complete}
use jwtproxy.Jwt.Verify.Replay.{read_clock, IsSeparate, jti, exp, accept}

module _ (clock : Clock) (lib : CacheLib) (urls : UrlLib) (jose : Jose)
    (key_server : Reader (World clock lib) jose.PublicKey) (req : Request) (audience : Url)
    (max_skew max_ttl : Duration) (w : World clock lib) where
  -- the state in which the storage is asked, and the instant at which the claims were checked
  abbrev pub checked_at : Time
  checked_at = (read_clock clock lib w).0

  abbrev pub asked : World clock lib
  asked = (read_clock clock lib w).1

  -- The nonce of a request that is accepted is found, afterwards and at the instant u, only while its
  -- token lives, up to what passes between two readings of the clock, and that token lives no
  -- longer than the limit and the skew together; unless the token has expired already when the storage
  -- computes how long to keep it, in which case it is found for ever.
  pub accepted_kept :
      (t : Token jose) (u : Time)
      → IsOrdinary max_skew
      → IsOrdinary max_ttl
      → IsSeparate clock lib key_server
      → exp clock lib urls jose key_server t.claims
        ≤ℤ duration_reading clock lib asked +ℤ max_duration
      → IsAccepted urls jose
          (read_clock clock lib)
          key_server
          (local_storage clock lib)
          req
          audience
          max_skew
          max_ttl
          w
          t
      → let e = exp clock lib urls jose key_server t.claims in
        let found =
          lib.get
            (jti clock lib urls jose key_server t.claims)
            u
            (accept clock lib urls jose key_server req audience max_skew max_ttl w).1.cache in
        (e ≤ℤ (checked_at +ℤ max_skew) +ℤ max_ttl)
        × (duration_reading clock lib asked <ℤ e
            → found ≡ true
            → u ≤ℤ e +ℤ (set_reading clock lib asked -ℤ duration_reading clock lib asked))
        × (e ≤ℤ duration_reading clock lib asked → found ≡ true)
  unfolding local_storage
  accepted_kept t u hs ht sep soon a =
      let j = jti clock lib urls jose key_server t.claims in
      let e = exp clock lib urls jose key_server t.claims in
      let timely = a.checked.timely in
      let s = a.subject in
      let recorded = (Local.verify clock lib j s.exp asked).1 in
      let complete =
        verify_complete urls jose (read_clock clock lib) key_server (local_storage clock lib) req
          audience max_skew max_ttl w t hs ht a in
      let same : (accept clock lib urls jose key_server req audience max_skew max_ttl w).1.cache
          ≡ recorded.cache =
        ap (λ p. p.1.cache) complete ∙ sep.same_cache s.iss s.kid recorded in
      let kept = ap (lib.get j u) same ∙ verify-lives clock lib j s.exp u asked a.fresh in
      let iat = (jose.time_claim t.claims (codes "iat")).0 in
      (
        omega (
          arith,
          timely.issued,
          timely.short,
          +ℤ_parts iat max_ttl,
          +ℤ_parts checked_at max_skew,
          +ℤ_parts (checked_at +ℤ max_skew) max_ttl,
        ),
        λ early found. rw a.checked.exp (
            lives_bounded s.exp (duration_reading clock lib asked) (set_reading clock lib asked) u
              (rw a.checked.exp at early) (rw a.checked.exp at soon) (sym kept ∙ found)),
        λ late.
            kept
            ∙ lives_ever s.exp (duration_reading clock lib asked) (set_reading clock lib asked) u
                (rw a.checked.exp at late),
      )
