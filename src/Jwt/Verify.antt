-- ===== src/Jwt/Verify.antt =====
-- `Verify` and `verifyAudience` of jwt/jwt.go, check by check. The clock, the key server and the nonce
-- storage act on a state W; the log is not modelled.
pub mod Checked
pub mod Accepted
pub mod Guarded
pub mod Replay
pub mod Retention
pub mod Tests
use jwtproxy.Common.{
  Bool, true, false, not, ◌++◌, ◌||◌, Option, none, some, Bytes, codes, lookup, if◌then◌else◌,
}
use jwtproxy.Common.Result.{
  Error, Result, ok, err, message, foreign, wrapped, public_key_not_found, public_key_expired,
  unknown_response, or_else, ◌>>=◌,
}
use jwtproxy.Value.{Claims}
use jwtproxy.Http.{Url, UrlLib, Request, equal_fold}
use jwtproxy.Time.{Time, Duration, before, after, add, sub, negate}
use jwtproxy.Common.Int.{ltb_ℤ}
use jwtproxy.KeyServer.{Reader, NonceStorage}
use jwtproxy.Jwt.Library.{Jose}

abbrev pub origin : Url → Bytes
origin u = u.scheme ++ codes "://" ++ u.host

-- `verifyAudience`
unfoldable pub verify_audience : UrlLib → Bytes → Url → Bool
verify_audience lib actual expected = elim (lib.parse actual) [
  | err e ↦ false
  | ok actual_url ↦ equal_fold lib (origin actual_url) (origin expected)
]

-- `!exists || err != nil`
abbrev pub is_missing : Bool → Option Error → Bool
is_missing exists e = not exists || elim e [ none ↦ false | some _ ↦ true ]

-- Lines 124 to 130: ErrPublicKeyNotFound goes to the caller as it is, any other error is replaced.
unfoldable pub key_server_error : Error → Error
key_server_error public_key_not_found = public_key_not_found
key_server_error _ = message (codes "Unexpected key server error")

-- what the checks of the claims hand on to the rest of `Verify`
pub record Subject : Type 0 where
  pub kid : Bytes
  pub iss : Bytes
  pub exp : Time

module _ (jose : Jose) where
  open jose use {Jwt, PublicKey, string_claim, time_claim}

  -- what the first half of `Verify` has read
  pub record Token : Type 0 where
    pub jwt : Jwt
    pub claims : Claims

  -- Lines 73 to 87: the token of the request, and its claims.
  unfoldable pub parse_token : Request → Result Token
  parse_token req = do
    token ← or_else (jose.extract_bearer_token req) (message (codes "No JWT found"))
    jwt ← or_else (jose.parse_jwt token) (message (codes "Could not parse JWT"))
    claims ← or_else (jose.claims jwt) (message (codes "Could not parse JWT claims"))
    ok (record { jwt = jwt; claims = claims })

  unfoldable pub check_times : Time → Duration → Duration → Claims → Bytes → Bytes → Result Subject
  check_times now max_skew max_ttl claims kid iss =
      let (exp, has_exp, exp_err) = time_claim claims (codes "exp") in
      let (nbf, has_nbf, nbf_err) = time_claim claims (codes "nbf") in
      let (iat, has_iat, iat_err) = time_claim claims (codes "iat") in
      if is_missing has_exp exp_err || before exp now
      then err (message (codes "Missing or invalid 'exp' claim"))
      else if is_missing has_nbf nbf_err || after nbf now
      then err (message (codes "Missing or invalid 'nbf' claim"))
      else if is_missing has_iat iat_err || after (add iat (negate max_skew)) now
      then err (message (codes "Missing or invalid 'iat' claim"))
      else if ltb_ℤ max_ttl (sub exp iat)
      then err (message (codes "Invalid 'exp' claim (too long)"))
      else ok (record { kid = kid; iss = iss; exp = exp })

  -- Lines 132 to 142: the signature, under the key that the key server returned.
  unfoldable pub check_signature : Token → PublicKey → Result Claims
  check_signature t public_key = do
    verifier ←
        or_else (jose.verifier public_key)
          (message (codes "Unexpected verifier initialization failure"))
    elim (jose.verify_signature verifier (jose.signature t.jwt) (jose.signed_data t.jwt)) [
      | some e ↦ err (message (codes "Invalid JWT signature"))
      | none ↦ ok t.claims
    ]

  module _ {W : Type 0} (key_server : Reader W PublicKey) where
    -- Lines 123 to 142.
    unfoldable pub verify_key : Token → Subject → W → Result Claims × W
    verify_key t s w =
        let (key, w') = key_server.get_public_key s.iss s.kid w in
        elim key [
          | err e ↦ (err (key_server_error e), w')
          | ok public_key ↦ (check_signature t public_key, w')
        ]

    -- Lines 118 to 121: the nonce, which is looked up and recorded before the key and the signature.
    unfoldable pub verify_nonce : NonceStorage W → Token → Subject → W → Result Claims × W
    verify_nonce nonce_verifier t s w =
        let (jti, has_jti, jti_err) = string_claim t.claims (codes "jti") in
        let (fresh, w') = nonce_verifier.verify jti s.exp w in
        if is_missing has_jti jti_err
        then (err (message (codes "Missing or invalid 'jti' claim")), w)
        else if not fresh
        then (err (message (codes "Missing or invalid 'jti' claim")), w')
        else verify_key t s w'

module _ (lib : UrlLib) (jose : Jose) where
  open jose use {string_claim}

  -- Lines 91 to 117, at the instant `now`.
  unfoldable pub check_claims : Time → Url → Duration → Duration → Token jose → Result Subject
  check_claims now audience max_skew max_ttl t =
      let (iss, has_iss, iss_err) = string_claim t.claims (codes "iss") in
      let (aud, has_aud, aud_err) = string_claim t.claims (codes "aud") in
      elim (lookup (codes "kid") (jose.header t.jwt)) [
        | none ↦ err (message (codes "Missing 'kid' claim"))
        | some kid ↦
            if is_missing has_iss iss_err
            then err (message (codes "Missing or invalid 'iss' claim"))
            else if is_missing has_aud aud_err || not (verify_audience lib aud audience)
            then err (message (codes "Missing or invalid 'aud' claim"))
            else check_times jose now max_skew max_ttl t.claims kid iss
      ]

  module _ {W : Type 0} (clock : W → Time × W) (key_server : Reader W jose.PublicKey)
      (nonce_verifier : NonceStorage W) where
    -- `Verify`. The clock is read once the claims are there.
    unfoldable pub verify : Request → Url → Duration → Duration → W → Result Claims × W
    verify req audience max_skew max_ttl w = elim (parse_token jose req) [
      | err e ↦ (err e, w)
      | ok t ↦
          let (now, w') = clock w in
          elim (check_claims now audience max_skew max_ttl t) [
            | err e ↦ (err e, w')
            | ok s ↦ verify_nonce jose key_server nonce_verifier t s w'
          ]
    ]
