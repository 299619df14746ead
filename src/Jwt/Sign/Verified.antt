-- ===== src/Jwt/Sign/Verified.antt =====
-- A request that `Sign` has signed, as `Verify` sees it.
use mathlib.Core.Path.{subst}
use jwtproxy.Common.{
  sym, ℕ, ◌++◌, true, ◌≡◌, refl, ap, none, some, Bytes, codes, lookup, bytes_eq, arith,
}
use jwtproxy.Common.Int.{ℤ, pos, ◌+ℤ◌, ◌≤ℤ◌, ◌<ℤ◌, +ℤ_parts}
use jwtproxy.Common.Result.{ok}
use jwtproxy.Value.{Claims, str, int64}
use jwtproxy.Http.{Url, UrlLib, Request, Header, header_get, header_add, lookup-header_add_new}
use jwtproxy.Time.{Clock, Time, Duration, add, negate, unix, from_unix, seconds}
use jwtproxy.Time.Laws.{
  add_parts, negate_parts, from_unix-unix_le, lt_from_unix-unix, from_unix_step,
}
use jwtproxy.Config.{SignerParams}
use jwtproxy.KeyServer.{Reader, NonceStorage}
use jwtproxy.Jwt.Library.{Jose}
use jwtproxy.Jwt.Verify.{origin, Token, Subject, verify}
use jwtproxy.Jwt.Verify.Checked.{IsAudience, IsTimely, IsChecked, IsOrdinary}
use jwtproxy.Jwt.Verify.Accepted.{IsParsed, IsSigned, IsAccepted, verify_complete}
use jwtproxy.Nonce.{generate_nonce}
use jwtproxy.Jwt.Sign.{make_claims, Entropy, add_token, sign}

-- go-oidc reads back the JWT that it has signed: the bearer token parses to it, its header names the
-- key, and its claims are those that were signed, the whole seconds of the times included.
pub record IsReadBack (jose : Jose) (signed : Claims) (key : jose.PrivateKey) (jwt : jose.Jwt)
    : Type 0 where
  pub decoded : Claims
  pub bearer :
      (r : Request)
      → header_get (codes "Authorization") r.header ≡ codes "Bearer " ++ jose.encode jwt
      → jose.extract_bearer_token r ≡ ok (jose.encode jwt)
  pub parsed : jose.parse_jwt (jose.encode jwt) ≡ ok jwt
  pub read : jose.claims jwt ≡ ok decoded
  pub kid : lookup (codes "kid") (jose.header jwt) ≡ some (jose.private_key_id key)
  pub strings :
      (n v : Bytes) → lookup n signed ≡ some (str v) → jose.string_claim decoded n ≡ (v, true, none)
  pub times :
      (n : Bytes) (s : ℤ)
      → lookup n signed ≡ some (int64 s)
      → jose.time_claim decoded n ≡ (from_unix s, true, none)

-- The readings of the clock by `Sign`, in order, the reading `now` by `Verify`, and the durations of
-- both configurations: the token still has a second to live, and lives for a second less than it may.
pub record IsInTime (t1 t2 t3 now : Time) (params : SignerParams) (max_skew max_ttl : Duration)
    : Type 0 where
  pub first : t1 ≤ℤ now
  pub second : t2 ≤ℤ now
  pub sign_skew : pos 0 ≤ℤ params.max_skew
  pub verify_skew : pos 0 ≤ℤ max_skew
  pub alive : now +ℤ seconds 1 ≤ℤ t3 +ℤ params.expiration_time
  pub short : t3 +ℤ params.expiration_time +ℤ seconds 1 ≤ℤ t1 +ℤ max_ttl

header_get_new :
    (k v : Bytes) (h : Header) → lookup k h ≡ none → header_get k (header_add k v h) ≡ v
unfolding header_get
header_get_new k v h e = rw (lookup-header_add_new k v h e, header_get)

module _ (jose : Jose) (req : Request) (params : SignerParams) (t1 t2 t3 : Time) (nonce : Bytes)
    (key : jose.PrivateKey) (jwt : jose.Jwt)
    (back : IsReadBack jose (make_claims req params t1 t2 t3 nonce) key jwt) where
  exp_read :
      jose.time_claim back.decoded (codes "exp")
      ≡ (from_unix (unix (add t3 params.expiration_time)), true, none)
  unfolding lookup bytes_eq
  exp_read = back.times (codes "exp") _ refl

  nbf_read :
      jose.time_claim back.decoded (codes "nbf")
      ≡ (from_unix (unix (add t2 (negate params.max_skew))), true, none)
  unfolding lookup bytes_eq
  nbf_read = back.times (codes "nbf") _ refl

  iat_read : jose.time_claim back.decoded (codes "iat") ≡ (from_unix (unix t1), true, none)
  unfolding lookup bytes_eq
  iat_read = back.times (codes "iat") _ refl

  signed-IsTimely :
      (now : Time) (max_skew max_ttl : Duration)
      → IsInTime t1 t2 t3 now params max_skew max_ttl
      → IsTimely jose now max_skew max_ttl back.decoded
  signed-IsTimely now skew ttl h =
      let e = add t3 params.expiration_time in
      let n = add t2 (negate params.max_skew) in
      record {
        has_exp = rw exp_read (record { found = refl; no_error = refl });
        has_nbf = rw nbf_read (record { found = refl; no_error = refl });
        has_iat = rw iat_read (record { found = refl; no_error = refl });
        not_expired = rw exp_read (
            omega (
              arith,
              h.alive,
              lt_from_unix-unix e,
              add_parts (from_unix (unix e)) (seconds 1),
              add_parts t3 params.expiration_time,
              +ℤ_parts t3 params.expiration_time,
              +ℤ_parts now (seconds 1),
            ));
        not_early = rw nbf_read (
            omega (
              arith,
              h.second,
              h.sign_skew,
              from_unix-unix_le n,
              add_parts t2 (negate params.max_skew),
              negate_parts params.max_skew,
            ));
        issued =
            rw iat_read
              (omega (arith, h.first, h.verify_skew, from_unix-unix_le t1, +ℤ_parts now skew));
        short =
            rw (exp_read, iat_read)
              (omega (
                arith,
                h.short,
                from_unix-unix_le e,
                lt_from_unix-unix t1,
                add_parts (from_unix (unix t1)) (seconds 1),
                add_parts t3 params.expiration_time,
                +ℤ_parts t3 params.expiration_time,
                +ℤ_parts (t3 +ℤ params.expiration_time) (seconds 1),
                +ℤ_parts t1 ttl,
                +ℤ_parts (from_unix (unix t1)) ttl,
              ));
      }

  iss_read : jose.string_claim back.decoded (codes "iss") ≡ (params.issuer, true, none)
  unfolding lookup bytes_eq
  iss_read = back.strings (codes "iss") _ refl

  aud_read : jose.string_claim back.decoded (codes "aud") ≡ (origin req.url, true, none)
  unfolding lookup bytes_eq
  aud_read = back.strings (codes "aud") _ refl

  jti_read : jose.string_claim back.decoded (codes "jti") ≡ (nonce, true, none)
  unfolding lookup bytes_eq
  jti_read = back.strings (codes "jti") _ refl

  abbrev pub token : Token jose
  token = record { jwt = jwt; claims = back.decoded }

  abbrev pub subject : Subject
  subject = record {
    kid = jose.private_key_id key;
    iss = params.issuer;
    exp = from_unix (unix (add t3 params.expiration_time));
  }

  -- The claims of a signed token pass every check of a verifier whose audience is the origin that the
  -- request was signed for.
  signed-IsChecked :
      (lib : UrlLib) (audience : Url) (now : Time) (max_skew max_ttl : Duration)
      → IsInTime t1 t2 t3 now params max_skew max_ttl
      → IsAudience lib (origin req.url) audience
      → IsChecked lib jose now audience max_skew max_ttl token subject
  signed-IsChecked lib audience now skew ttl h aud = record {
    kid = back.kid;
    has_iss = rw iss_read (record { found = refl; no_error = refl });
    iss = rw iss_read;
    has_aud = rw aud_read (record { found = refl; no_error = refl });
    aud = rw aud_read aud;
    timely = signed-IsTimely now skew ttl h;
    exp = rw exp_read;
  }

  -- Crossing a second between the first and the last reading of the clock costs a second of the time to
  -- live: the token is refused as too long-lived wherever the signer's expiration is the verifier's limit.
  pub not-IsTimely_boundary :
      (now : Time) (max_skew max_ttl : Duration)
      → unix t1 <ℤ unix t3
      → max_ttl ≤ℤ params.expiration_time
      → ¬ IsTimely jose now max_skew max_ttl back.decoded
  not-IsTimely_boundary now skew ttl crossed long timely =
      let e = add t3 params.expiration_time in
      let short : from_unix (unix e) ≤ℤ from_unix (unix t1) +ℤ ttl =
        rw (ap (λ p. p.0) exp_read, ap (λ p. p.0) iat_read) at timely.short in
      absurd (
        omega (
          arith,
          short,
          lt_from_unix-unix e,
          add_parts (from_unix (unix e)) (seconds 1),
          add_parts t3 params.expiration_time,
          from_unix-unix_le t3,
          from_unix_step (unix t1) (unix t3) crossed,
          +ℤ_parts (from_unix (unix t1)) ttl,
          +ℤ_parts (from_unix (unix t1)) (seconds 1),
          long,
        ))

  signed-IsParsed :
      lookup (codes "Authorization") req.header ≡ none
      → IsParsed jose (add_token jose req jwt) token
  unfolding add_token
  signed-IsParsed fresh = record {
    bearer = jose.encode jwt;
    extracted = back.bearer _ (
        header_get_new (codes "Authorization") (codes "Bearer " ++ jose.encode jwt) req.header
          fresh);
    parsed = back.parsed;
    read = back.read;
  }

-- the three readings of the clock by `Sign`
module _ (clock : Clock) (c : clock.State) where
  abbrev pub first_reading : Time
  first_reading = (clock.read c).0

  abbrev pub second_reading : Time
  second_reading = (clock.read (clock.read c).1).0

  abbrev pub third_reading : Time
  third_reading = (clock.read (clock.read (clock.read c).1).1).0

-- 'exp' of the token, rounded down to a second
abbrev pub expiration : Time → SignerParams → Time
expiration t3 params = from_unix (unix (add t3 params.expiration_time))

module _ (jose : Jose) (clock : Clock) {S : Type 0} (int63 : S → ℕ × S) (lib : UrlLib) {W : Type 0}
    (verifier_clock : W → Time × W) (key_server : Reader W jose.PublicKey)
    (nonce_verifier : NonceStorage W) where
  -- A request with no Authorization header that `Sign` signs is accepted by `Verify` for its origin,
  -- with the claims that were signed, if these hold: the durations of the verifier are ordinary and no
  -- skew is negative; the verifier reads the clock no earlier than `Sign` and a second before the
  -- token expires; and the expiration time and a second more, counted from the signer's last reading
  -- of the clock, end no later than the verifier's limit counted from its first, which with the
  -- default durations is not so. The storage accepts this nonce until this expiration, the key server
  -- then has a key that fits the signature, and go-oidc reads back what it signed.
  pub sign_verify :
      (req : Request) (key : jose.PrivateKey) (params : SignerParams) (w : Entropy clock S)
      (nonce : Bytes) (source : S) (jwt : jose.Jwt) (audience : Url) (max_skew max_ttl : Duration)
      (v : W) (public_key : jose.PublicKey)
      → lookup (codes "Authorization") req.header ≡ none
      → generate_nonce int63 params.nonce_length w.source ≡ some (nonce, source)
      → let claims =
          make_claims req params
            (first_reading clock w.time)
            (second_reading clock w.time)
            (third_reading clock w.time)
            nonce in
        jose.new_signed_jwt claims (jose.signer key) ≡ ok jwt
        → (back : IsReadBack jose claims key jwt) → IsOrdinary max_skew
        → IsOrdinary max_ttl
        → IsInTime
            (first_reading clock w.time)
            (second_reading clock w.time)
            (third_reading clock w.time)
            (verifier_clock v).0
            params
            max_skew
            max_ttl
        → IsAudience lib (origin req.url) audience
        → let recorded =
            nonce_verifier.verify nonce
              (expiration (third_reading clock w.time) params)
              (verifier_clock v).1 in
          recorded.0 ≡ true
          → (key_server.get_public_key params.issuer (jose.private_key_id key) recorded.1).0
            ≡ ok public_key
          → IsSigned jose (record { jwt = jwt; claims = back.decoded }) public_key
          → (w' : Entropy clock S) × (sign jose clock int63 req key params w
              ≡ some (ok (add_token jose req jwt), w'))
            × ((verify lib jose verifier_clock key_server nonce_verifier
                  (add_token jose req jwt)
                  audience
                  max_skew
                  max_ttl
                  v).0
                ≡ ok back.decoded)
  unfolding sign
  sign_verify req key params w nonce source jwt audience skew ttl v pk bare drawn made back hs ht
        timely aud fresh served signed =
      let t1 = first_reading clock w.time in
      let t2 = second_reading clock w.time in
      let t3 = third_reading clock w.time in
      let same : nonce ≡ (jose.string_claim back.decoded (codes "jti")).0 =
        sym (ap (λ r. r.0) (jti_read jose req params t1 t2 t3 nonce key jwt back)) in
      let accepted : IsAccepted lib jose verifier_clock key_server nonce_verifier
          (add_token jose req jwt) audience skew ttl v
          (token jose req params t1 t2 t3 nonce key jwt back) =
        record {
          parsed = signed-IsParsed jose req params t1 t2 t3 nonce key jwt back bare;
          subject = subject jose req params t1 t2 t3 nonce key jwt back;
          checked =
              signed-IsChecked jose req params t1 t2 t3 nonce key jwt back lib audience
                (verifier_clock v).0 skew ttl timely aud;
          has_jti =
              rw (jti_read jose req params t1 t2 t3 nonce key jwt back)
                (record { found = refl; no_error = refl });
          fresh =
              subst
                (λ j.
                  (nonce_verifier.verify j (expiration t3 params) (verifier_clock v).1).0 ≡ true)
                same fresh;
          key = pk;
          served =
              subst
                (λ j.
                  (key_server.get_public_key params.issuer (jose.private_key_id key)
                    (nonce_verifier.verify j (expiration t3 params) (verifier_clock v).1).1).0
                  ≡ ok pk)
                same served;
          signed = signed;
        } in
      (
        record { time = (clock.read (clock.read (clock.read w.time).1).1).1; source = source },
        rw (drawn, made, sign),
        ap (λ p. p.0)
            (verify_complete lib jose verifier_clock key_server nonce_verifier
              (add_token jose req jwt) audience skew ttl v
              (token jose req params t1 t2 t3 nonce key jwt back) hs ht accepted),
      )
