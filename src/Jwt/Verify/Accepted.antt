-- ===== src/Jwt/Verify/Accepted.antt =====
-- What `Verify` accepts, and which states its checks reach.
use jwtproxy.Common.{Bool, true, ◌≡◌, inl, inr, none, Bytes, codes, arith}
use jwtproxy.Common.Result.{Result, ok, Result-cases}
use jwtproxy.Value.{Claims}
use jwtproxy.Http.{Url, UrlLib, Request}
use jwtproxy.Time.{Time, Duration}
use jwtproxy.KeyServer.{Reader, NonceStorage}
use jwtproxy.Jwt.Library.{Jose}
use jwtproxy.Jwt.Verify.{
  Token, Subject, parse_token, check_claims, check_signature, verify_key, verify_nonce, verify,
}
use jwtproxy.Jwt.Verify.Checked.{
  IsPresent, IsChecked, IsOrdinary, is_missing_iff, check_claims_sound, check_claims_complete,
}

-- the request carries a bearer token that parses to this JWT with these claims
pub record IsParsed (jose : Jose) (req : Request) (t : Token jose) : Type 0 where
  pub bearer : Bytes
  pub extracted : jose.extract_bearer_token req ≡ ok bearer
  pub parsed : jose.parse_jwt bearer ≡ ok t.jwt
  pub read : jose.claims t.jwt ≡ ok t.claims

-- the key makes a verifier that finds the signature right
pub record IsSigned (jose : Jose) (t : Token jose) (key : jose.PublicKey) : Type 0 where
  pub verifier : jose.Verifier
  pub made : jose.verifier key ≡ ok verifier
  pub valid : jose.verify_signature verifier (jose.signature t.jwt) (jose.signed_data t.jwt) ≡ none

module _ (jose : Jose) where
  parse_token_sound :
      (req : Request) (t : Token jose) → parse_token jose req ≡ ok t → IsParsed jose req t
  unfolding parse_token
  parse_token_sound req t h = elim (Result-cases (jose.extract_bearer_token req)) [
    | inr (x, e) ↦ cc (rw (e, parse_token) at h)
    | inl (bearer, e) ↦ elim (Result-cases (jose.parse_jwt bearer)) [
      | inr (x, f) ↦ cc (rw (e, f, parse_token) at h)
      | inl (jwt, f) ↦ record {
        bearer = bearer;
        extracted = e;
        parsed = ground arith;
        read = ground arith;
      }
    ]
  ]

  parse_token_complete :
      (req : Request) (t : Token jose) → IsParsed jose req t → parse_token jose req ≡ ok t
  unfolding parse_token
  parse_token_complete req t p = ground arith

  check_signature_sound :
      (t : Token jose) (key : jose.PublicKey) (c : Claims)
      → check_signature jose t key ≡ ok c
      → IsSigned jose t key × (c ≡ t.claims)
  unfolding check_signature
  check_signature_sound t key c h = elim (Result-cases (jose.verifier key)) [
    | inr (x, e) ↦ cc (rw (e, check_signature) at h)
    | inl (v, e) ↦ (record { verifier = v; made = e; valid = ground arith }, ground arith)
  ]

  check_signature_complete :
      (t : Token jose) (key : jose.PublicKey)
      → IsSigned jose t key
      → check_signature jose t key ≡ ok t.claims
  unfolding check_signature
  check_signature_complete t key p = ground arith

  -- A request has one token.
  pub parsed_once :
      (req : Request) (s t : Token jose)
      → IsParsed jose req s
      → IsParsed jose req t
      → s.claims ≡ t.claims
  parsed_once req s t p q = grind arith

module _ (lib : UrlLib) (jose : Jose) {W : Type 0} (clock : W → Time × W)
    (key_server : Reader W jose.PublicKey) (nonce_verifier : NonceStorage W) where
  abbrev check_nonce : Token jose → Subject → W → Bool × W
  check_nonce t s w = nonce_verifier.verify (jose.string_claim t.claims (codes "jti")).0 s.exp w

  abbrev key_of : Token jose → Subject → W → Result jose.PublicKey × W
  key_of t s w = key_server.get_public_key s.iss s.kid (check_nonce t s w).1

  -- Every check of `Verify` passes for this token, starting from the state w: the claims at the instant
  -- that the clock shows, the nonce, and the signature under the key that the key server returns for
  -- the issuer and key id of the token.
  pub record IsAccepted (req : Request) (audience : Url) (max_skew max_ttl : Duration) (w : W)
      (t : Token jose) : Type 0 where
    pub parsed : IsParsed jose req t
    pub subject : Subject
    pub checked : IsChecked lib jose (clock w).0 audience max_skew max_ttl t subject
    pub has_jti : IsPresent (jose.string_claim t.claims (codes "jti"))
    pub fresh : (check_nonce t subject (clock w).1).0 ≡ true
    pub key : jose.PublicKey
    pub served : (key_of t subject (clock w).1).0 ≡ ok key
    pub signed : IsSigned jose t key

  -- the state that `Verify` leaves behind: the nonce is recorded, the key server asked
  abbrev after_key : Token jose → Subject → W → W
  after_key t s w = (key_of t s w).1

  verify_key_sound :
      (t : Token jose) (s : Subject) (w : W) (c : Claims)
      → (verify_key jose key_server t s w).0 ≡ ok c
      → (key : jose.PublicKey) × ((key_server.get_public_key s.iss s.kid w).0 ≡ ok key)
        × IsSigned jose t key
        × (c ≡ t.claims)
  unfolding verify_key
  verify_key_sound t s w c h = elim (Result-cases (key_server.get_public_key s.iss s.kid w).0) [
    | inr (x, e) ↦ cc (rw (e, verify_key) at h)
    | inl (key, e) ↦
        let (signed, same) = check_signature_sound jose t key c (rw (e, verify_key) at h) in
        (key, e, signed, same)
  ]

  verify_nonce_sound :
      (t : Token jose) (s : Subject) (w : W) (c : Claims)
      → (verify_nonce jose key_server nonce_verifier t s w).0 ≡ ok c
      → IsPresent (jose.string_claim t.claims (codes "jti"))
        × ((check_nonce t s w).0 ≡ true)
        × ((verify_key jose key_server t s (check_nonce t s w).1).0 ≡ ok c)
  unfolding verify_nonce
  verify_nonce_sound t s w c h = (
    (is_missing_iff (jose.string_claim t.claims (codes "jti"))).0 (ground arith),
    ground arith,
    ground arith,
  )

  -- An accepted request: the claims that `Verify` returns are those of its token, and every check
  -- passed.
  pub verify_sound :
      (req : Request) (audience : Url) (max_skew max_ttl : Duration) (w : W) (c : Claims)
      → IsOrdinary max_skew
      → IsOrdinary max_ttl
      → (verify lib jose clock key_server nonce_verifier req audience max_skew max_ttl w).0 ≡ ok c
      → (t : Token jose) × IsAccepted req audience max_skew max_ttl w t × (c ≡ t.claims)
  unfolding verify
  verify_sound req audience skew ttl w c hs ht h = elim (Result-cases (parse_token jose req)) [
    | inr (x, e) ↦ cc (rw (e, verify) at h)
    | inl (t, e) ↦ elim (Result-cases (check_claims lib jose (clock w).0 audience skew ttl t)) [
      | inr (x, f) ↦ cc (rw (e, f, verify) at h)
      | inl (s, f) ↦
          let (jti, fresh, rest) = verify_nonce_sound t s (clock w).1 c (rw (e, f, verify) at h) in
          let (key, served, signed, same) =
            verify_key_sound t s (check_nonce t s (clock w).1).1 c rest in
          (
            t,
            record {
              parsed = parse_token_sound jose req t e;
              subject = s;
              checked = check_claims_sound jose (clock w).0 skew ttl hs ht lib audience t s f;
              has_jti = jti;
              fresh = fresh;
              key = key;
              served = served;
              signed = signed;
            },
            same,
          )
    ]
  ]

  -- A request whose token passes every check is accepted, and `Verify` returns the token's claims in
  -- the state that the clock, the nonce storage and the key server left.
  pub verify_complete :
      (req : Request) (audience : Url) (max_skew max_ttl : Duration) (w : W) (t : Token jose)
      → IsOrdinary max_skew
      → IsOrdinary max_ttl
      → (a : IsAccepted req audience max_skew max_ttl w t)
      → verify lib jose clock key_server nonce_verifier req audience max_skew max_ttl w
        ≡ (ok t.claims, after_key t a.subject (clock w).1)
  unfolding verify verify_nonce verify_key
  verify_complete req audience skew ttl w t hs ht a =
      let p = parse_token_complete jose req t a.parsed in
      let c =
        check_claims_complete jose (clock w).0 skew ttl hs ht lib audience t a.subject a.checked in
      let k = check_signature_complete jose t a.key a.signed in ground (arith, p, c, k)

  -- The nonce of every token whose claims pass is handed to the nonce storage before the key and the
  -- signature are looked at: whatever the key server returns, and also if the signature is wrong, the
  -- final state is the one in which the nonce was recorded, up to the key server's own doing.
  pub verify_records_nonce :
      (req : Request) (audience : Url) (max_skew max_ttl : Duration) (w : W) (t : Token jose)
      (s : Subject)
      → IsOrdinary max_skew
      → IsOrdinary max_ttl
      → IsParsed jose req t
      → IsChecked lib jose (clock w).0 audience max_skew max_ttl t s
      → IsPresent (jose.string_claim t.claims (codes "jti"))
      → (check_nonce t s (clock w).1).0 ≡ true
      → (verify lib jose clock key_server nonce_verifier req audience max_skew max_ttl w).1
        ≡ after_key t s (clock w).1
  unfolding verify verify_nonce verify_key
  verify_records_nonce req audience skew ttl w t s hs ht p c jti fresh =
      let parsed = parse_token_complete jose req t p in
      let checked = check_claims_complete jose (clock w).0 skew ttl hs ht lib audience t s c in
      ground (arith, parsed, checked)
