-- ===== src/Jwt/Verify/Replay.antt =====
-- `Verify` with the local nonce storage: no request is accepted twice while its token lives.
use jwtproxy.Common.{◌≡◌, ◌≢◌, refl, ap, ◌∙◌, List, Bytes, codes, arith}
use jwtproxy.Common.Result.{Result, ok}
use jwtproxy.Common.Int.{◌+ℤ◌, ◌≤ℤ◌, +ℤ_parts}
use jwtproxy.Value.{Claims}
use jwtproxy.Http.{Url, UrlLib, Request}
use jwtproxy.Time.{Clock, Time, Duration, max_duration}
use jwtproxy.KeyServer.{Reader}
use jwtproxy.KeyServer.Guard.{Guard}
use jwtproxy.Jwt.Verify.Guarded.{guarded_once}
use jwtproxy.NonceStorage.Local.{CacheLib, World, local_storage, Call, run}
use jwtproxy.NonceStorage.Local.Replay.{
  Remembers, Remembers-verify, Remembers-run, Remembers-refuses,
}
use jwtproxy.Jwt.Library.{Jose}
use jwtproxy.Jwt.Verify.{verify}
use jwtproxy.Jwt.Verify.Checked.{IsOrdinary}

module _ (clock : Clock) (lib : CacheLib) where
  -- the clock that `Verify` reads is the one that the storage reads
  abbrev pub read_clock : World clock lib → Time × World clock lib
  read_clock w = let (t, c) = clock.read w.time in (t, record w { time = c })

  -- A key server that has nothing to do with the nonces: asking it may take time.
  pub record IsSeparate {K : Type 0} (key_server : Reader (World clock lib) K) : Type 0 where
    pub same_cache :
        (iss kid : Bytes) (w : World clock lib)
        → (key_server.get_public_key iss kid w).1.cache ≡ w.cache
    pub later :
        (iss kid : Bytes) (w : World clock lib)
        → clock.last w.time ≤ℤ clock.last (key_server.get_public_key iss kid w).1.time

  Remembers-later :
      (nonce : Bytes) (expiration : Time) (w v : World clock lib)
      → v.cache ≡ w.cache
      → clock.last w.time ≤ℤ clock.last v.time
      → Remembers clock lib nonce expiration w
      → Remembers clock lib nonce expiration v
  Remembers-later nonce expiration w v same later m = record {
    found = λ u le h. ap (lib.get nonce u) same ∙ m.found u (omega arith) h;
  }

  last-read_clock : (w : World clock lib) → clock.last w.time ≤ℤ clock.last (read_clock w).1.time
  last-read_clock w = rw (clock.read_last w.time) (clock.monotone w.time)

  asked-Remembers :
      {K : Type 0} (key_server : Reader (World clock lib) K)
      → IsSeparate key_server
      → (iss kid : Bytes) (w : World clock lib) (nonce : Bytes) (held : Time)
      → Remembers clock lib nonce held w
      → Remembers clock lib nonce held (key_server.get_public_key iss kid w).1
  asked-Remembers key_server sep iss kid w nonce held m =
      Remembers-later nonce held w (key_server.get_public_key iss kid w).1
        (sep.same_cache iss kid w) (sep.later iss kid w) m

  -- The local storage is a guard, for nonces that are to be held no longer than a duration can be.
  pub local_guard : Guard read_clock (local_storage clock lib)
  unfolding local_storage
  local_guard = record {
    Remembers = Remembers clock lib;
    IsKeepable = λ expiration w. expiration ≤ℤ clock.last w.time +ℤ max_duration;
    accepted = Remembers-verify clock lib;
    refused = Remembers-refuses clock lib;
    kept =
        λ nonce held w m. Remembers-later nonce held w (read_clock w).1 refl (last-read_clock w) m;
  }

  module _ (urls : UrlLib) (jose : Jose)
      (key_server : Reader (World clock lib) jose.PublicKey) where
    abbrev pub jti : Claims → Bytes
    jti c = (jose.string_claim c (codes "jti")).0

    abbrev pub exp : Claims → Time
    exp c = (jose.time_claim c (codes "exp")).0

    abbrev pub accept :
        Request → Url → Duration → Duration → World clock lib → Result Claims × World clock lib
    accept = verify urls jose read_clock key_server (local_storage clock lib)

    -- Two runs of `Verify` on one request, with whatever nonces and purges between them: if the first
    -- accepts it, the second does not, as long as the storage reads the clock no later than the
    -- expiration of the token.
    pub verify_once :
        (req : Request) (audience : Url) (max_skew max_ttl : Duration) (w : World clock lib)
        (c d : Claims) (cs : List (Call clock lib))
        → IsOrdinary max_skew
        → IsOrdinary max_ttl
        → IsSeparate key_server
        → let accept =
            verify urls jose read_clock key_server
              (local_storage clock lib)
              req
              audience
              max_skew
              max_ttl in
          let w' = run clock lib (accept w).1 cs in
          (accept w).0 ≡ ok c
          → (jose.time_claim c (codes "exp")).0 ≤ℤ clock.last w.time +ℤ max_duration
          → (clock.read (clock.read w'.time).1).0 ≤ℤ (jose.time_claim c (codes "exp")).0
          → (accept w').0 ≢ ok d
    unfolding local_guard
    verify_once req audience skew ttl w c d cs hs ht sep first short now =
        let w1 = (read_clock w).1 in
        let keepable : exp c ≤ℤ clock.last w1.time +ℤ max_duration = omega (
          arith,
          short,
          last-read_clock w,
          +ℤ_parts (clock.last w.time) max_duration,
          +ℤ_parts (clock.last w1.time) max_duration,
        ) in
        let w' = run clock lib (accept req audience skew ttl w).1 cs in
        guarded_once urls jose read_clock key_server (local_storage clock lib) local_guard req
          audience skew ttl w w' c d hs ht (asked-Remembers key_server sep) first keepable
          (λ nonce held m.
            Remembers-run clock lib nonce held (accept req audience skew ttl w).1 cs m)
          now
