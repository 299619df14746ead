-- ===== src/Jwt/Verify/Guarded.antt =====
-- `Verify` of jwt/jwt.go with any nonce storage that is a guard: no request is accepted twice.
use jwtproxy.Common.{◌≡◌, ◌≢◌, ◌∙◌, Bytes, codes}
use jwtproxy.Common.Result.{Result, ok}
use jwtproxy.Common.Int.{◌≤ℤ◌}
use jwtproxy.Value.{Claims}
use jwtproxy.Http.{Url, UrlLib, Request}
use jwtproxy.Time.{Time, Duration}
use jwtproxy.KeyServer.{Reader, NonceStorage}
use jwtproxy.KeyServer.Guard.{Guard}
use jwtproxy.Jwt.Library.{Jose}
use jwtproxy.Jwt.Verify.{Token, verify}
use jwtproxy.Jwt.Verify.Checked.{IsOrdinary}
use jwtproxy.Jwt.Verify.Accepted.{IsAccepted, parsed_once, verify_sound, verify_complete}

module _ (jose : Jose) where
  abbrev pub jti : Claims → Bytes
  jti c = (jose.string_claim c (codes "jti")).0

  abbrev pub exp : Claims → Time
  exp c = (jose.time_claim c (codes "exp")).0

module _ (urls : UrlLib) (jose : Jose) {W : Type 0} (read_clock : W → Time × W)
    (key_server : Reader W jose.PublicKey) (storage : NonceStorage W)
    (guard : Guard read_clock storage) (req : Request) (audience : Url) (skew ttl : Duration) where
  -- No nonce that is held in w is lost in v.
  abbrev pub Keeps : W → W → Type 0
  Keeps w v =
      (nonce : Bytes) (held : Time) → guard.Remembers nonce held w → guard.Remembers nonce held v

  abbrev accept : W → Result Claims × W
  accept = verify urls jose read_clock key_server storage req audience skew ttl

  abbrev Accepted : W → Token jose → Type 0
  Accepted = IsAccepted urls jose read_clock key_server storage req audience skew ttl

  -- After a request is accepted, its nonce is held until its token expires.
  accepted-Remembers :
      (w : W) (t : Token jose)
      → IsOrdinary skew
      → IsOrdinary ttl
      → ((iss kid : Bytes) (v : W) → Keeps v (key_server.get_public_key iss kid v).1)
      → guard.IsKeepable (exp jose t.claims) (read_clock w).1
      → Accepted w t
      → guard.Remembers (jti jose t.claims) (exp jose t.claims) (accept w).1
  accepted-Remembers w t hs ht asks keepable a =
      let s = a.subject in
      let u = (read_clock w).1 in
      let recorded = (storage.verify (jti jose t.claims) s.exp u).1 in
      let held =
        guard.accepted (jti jose t.claims) s.exp u (rw a.checked.exp at keepable) a.fresh in
      rw
        (
          verify_complete urls jose read_clock key_server storage req audience skew ttl w t hs ht a,
          a.checked.exp,
        )
        (asks s.iss s.kid recorded (jti jose t.claims) s.exp held)

  -- A request whose nonce is held is not accepted.
  not-IsAccepted :
      (v : W) (t : Token jose) (held : Time)
      → guard.Remembers (jti jose t.claims) held v
      → (read_clock (read_clock v).1).0 ≤ℤ held
      → ¬ Accepted v t
  not-IsAccepted v t held m now a =
      let u = (read_clock v).1 in
      cc (
        a.fresh,
        guard.refused (jti jose t.claims) held a.subject.exp u
            (guard.kept (jti jose t.claims) held v m) now,
      )

  -- If a request is accepted in w, and no nonce that is held then is lost until v, it is not accepted in v
  -- as long as the clock reads no later than the expiration of its token.
  pub guarded_once :
      (w v : W) (c d : Claims)
      → IsOrdinary skew
      → IsOrdinary ttl
      → ((iss kid : Bytes) (u : W) → Keeps u (key_server.get_public_key iss kid u).1)
      → (accept w).0 ≡ ok c
      → guard.IsKeepable (exp jose c) (read_clock w).1
      → Keeps (accept w).1 v
      → (read_clock (read_clock v).1).0 ≤ℤ exp jose c
      → (accept v).0 ≢ ok d
  guarded_once w v c d hs ht asks first keepable keeps now second =
      let (t, a, same) =
        verify_sound urls jose read_clock key_server storage req audience skew ttl w c hs ht
          first in
      let (t', a', same') =
        verify_sound urls jose read_clock key_server storage req audience skew ttl v d hs ht
          second in
      let one = parsed_once jose req t t' a.parsed a'.parsed in
      let m = accepted-Remembers w t hs ht asks (rw same at keepable) a in
      let again = rw one at (keeps (jti jose t.claims) (exp jose t.claims) m) in
      not-IsAccepted v t' (exp jose t'.claims) again (rw (same ∙ one) at now) a'
