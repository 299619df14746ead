-- ===== src/Jwt/Verify/Retention/Tests.antt =====
-- The token of the runs, which lives until 1060 s, with a clock that shows 1005 s first.
use jwtproxy.Common.{◌+◌, [], ◌-◌, ◌*◌, ◌≡◌, refl, true, codes, lookup, bytes_eq, arith}
use jwtproxy.Common.Int.{pos, ◌+ℤ◌, ◌-ℤ◌, ◌≤ℤ◌, ◌<ℤ◌}
use jwtproxy.Time.{Time, minutes, from_unix}
use jwtproxy.Time.Ticking.{ticking}
use jwtproxy.NonceStorage.Local
use jwtproxy.NonceStorage.Local.{World, local_storage, look, store}
use jwtproxy.NonceStorage.Local.Listed.{listed}
use jwtproxy.Jwt.Plain.{plain, upstream, one_url, bearing, serve_key}
use jwtproxy.Jwt.Library.{Jose}
use jwtproxy.Jwt.Verify.{verify}
use jwtproxy.Jwt.Verify.Accepted.{IsAccepted}
use jwtproxy.Jwt.Verify.Replay.{read_clock, IsSeparate}
use jwtproxy.Jwt.Verify.Retention.{accepted_kept}
use jwtproxy.Jwt.Verify.Tests.{
  claims, now, token, subject, parsed, checked, jti-IsPresent, five_minutes-IsOrdinary,
}

abbrev jose : Jose
jose = plain claims (codes "ok")

abbrev before : World ticking listed
before = record { cache = []; time = now - 1 }

separate : IsSeparate ticking listed (serve_key {W = World ticking listed})
separate = record { same_cache = λ i k w. refl; later = λ i k w. omega arith }

acceptance :
    IsAccepted one_url jose
      (read_clock ticking listed)
      serve_key
      (local_storage ticking listed)
      bearing
      upstream
      (minutes 5)
      (minutes 5)
      before
      (token (codes "ok"))
unfolding local_storage Local.verify look lookup bytes_eq
acceptance = record {
  parsed = parsed (codes "ok");
  subject = subject;
  checked = checked (codes "ok");
  has_jti = jti-IsPresent (codes "ok");
  fresh = refl;
  key = tt;
  served = refl;
  signed = record { verifier = tt; made = refl; valid = refl };
}

abbrev expiration : Time
expiration = pos (1060 * 1000000000)

accepted_kept_example :
    let found =
      listed.get
        (codes "n1")
        (pos now)
        (verify one_url jose
          (read_clock ticking listed)
          serve_key
          (local_storage ticking listed)
          bearing
          upstream
          (minutes 5)
          (minutes 5)
          before).1.cache in
    (expiration ≤ℤ (pos now +ℤ minutes 5) +ℤ minutes 5)
    × (pos (1005 * 1000000000 + 2) <ℤ expiration
        → found ≡ true
        → pos now ≤ℤ expiration +ℤ (pos (1005 * 1000000000 + 3) -ℤ pos (1005 * 1000000000 + 2)))
    × (expiration ≤ℤ pos (1005 * 1000000000 + 2) → found ≡ true)
unfolding lookup bytes_eq from_unix ◌+ℤ◌
accepted_kept_example =
    accepted_kept ticking listed one_url jose serve_key bearing upstream (minutes 5) (minutes 5)
      before (token (codes "ok")) (pos now) five_minutes-IsOrdinary five_minutes-IsOrdinary separate
      (omega arith) acceptance
