-- ===== src/Proxy/Through.antt =====
-- A request on its whole way: through the signer proxy, and then through the verifier proxy.
mod Tests
use jwtproxy.Common.{ℕ, ◌≡◌, refl, Option, none, some, List, [], ◌∷◌, Bytes, codes, lookup, true}
use jwtproxy.Common.Result.{Result, ok, err}
use jwtproxy.Http.{Url, UrlLib, Request}
use jwtproxy.Value.{Claims}
use jwtproxy.Time.{Clock, Time, Duration}
use jwtproxy.Config.{SignerParams}
use jwtproxy.KeyServer.{Reader, NonceStorage}
use jwtproxy.Nonce.{generate_nonce}
use jwtproxy.Jwt.Library.{Jose}
use jwtproxy.Jwt.Sign.{make_claims, Entropy, add_token, sign}
use jwtproxy.Jwt.Sign.Verified.{
  IsReadBack, IsInTime, expiration, first_reading, second_reading, third_reading, sign_verify,
}
use jwtproxy.Jwt.Verify.{origin, verify}
use jwtproxy.Jwt.Verify.Checked.{IsAudience, IsOrdinary}
use jwtproxy.Jwt.Verify.Accepted.{IsSigned}
use jwtproxy.Proxy.Router.{RoundTripper, route}
use jwtproxy.Proxy.Signer.{signer_handler}
use jwtproxy.Proxy.Verifier.{Handle, run_verifiers, verifier_handler}
use jwtproxy.Proxy.Verifier.Laws.{AllPass}

run_verifiers-eq-none :
    {W : Type 0} (vs : List (Handle W)) (r : Request) (c : Claims) (w : W)
    → AllPass vs r c w
    → (run_verifiers vs r c w).0 ≡ none
unfolding run_verifiers
run_verifiers-eq-none [] r c w h = refl
run_verifiers-eq-none (v ∷ vs) r c w (passes, rest) =
    rw (passes, run_verifiers) (run_verifiers-eq-none vs r c (v r c w).1 rest)

-- the signer's side
module _ (jose : Jose) (clock : Clock) {S P : Type 0} (int63 : S → ℕ × S)
    (get_private_key : P → Result jose.PrivateKey × P) (params : SignerParams) where
  signer_signs :
      (r r' : Request) (p : P) (w w' : Entropy clock S) (key : jose.PrivateKey)
      → (get_private_key p).0 ≡ ok key
      → sign jose clock int63 r key params w ≡ some (ok r', w')
      → signer_handler jose clock int63 get_private_key params r (p, w)
        ≡ some ((r', none), ((get_private_key p).1, w'))
  unfolding signer_handler
  signer_signs r r' p w w' key e f = rw (e, f, signer_handler) refl

-- the verifier's side
module _ (lib : UrlLib) (jose : Jose) {W : Type 0} (clock : W → Time × W)
    (key_server : Reader W jose.PublicKey) (nonce_storage : NonceStorage W)
    (claims_verifiers : List (Handle W)) (upstream audience : Url)
    (max_skew max_ttl : Duration) where
  verifier_forwards :
      (r : Request) (rt : RoundTripper) (w : W) (c : Claims)
      → (verify lib jose clock key_server nonce_storage r audience max_skew max_ttl w).0 ≡ ok c
      → AllPass claims_verifiers r c
          (verify lib jose clock key_server nonce_storage r audience max_skew max_ttl w).1
      → (verifier_handler lib jose clock key_server nonce_storage claims_verifiers upstream audience
          max_skew max_ttl
          (r, rt)
          w).0
        ≡ record {
          request = (route lib upstream (r, rt)).0;
          round_tripper = (route lib upstream (r, rt)).1;
          response = none;
        }
  unfolding verifier_handler
  verifier_forwards r rt w c e pass =
      let passed =
        run_verifiers-eq-none claims_verifiers r c
          (verify lib jose clock key_server nonce_storage r audience max_skew max_ttl w).1 pass in
      rw (e, passed, verifier_handler) refl

module _ (jose : Jose) (clock : Clock) {S P : Type 0} (int63 : S → ℕ × S)
    (get_private_key : P → Result jose.PrivateKey × P) (lib : UrlLib) {W : Type 0}
    (verifier_clock : W → Time × W) (key_server : Reader W jose.PublicKey)
    (nonce_storage : NonceStorage W) (claims_verifiers : List (Handle W)) (upstream : Url) where
  -- A request with no Authorization header that the signer proxy handles with its provider's key gets
  -- through both proxies: the signer lets it on with its token, and the verifier for its origin routes
  -- it to the upstream, if these hold: the durations of the verifier are ordinary and no skew is
  -- negative; the verifier reads the clock no earlier than `Sign` and a second before the token
  -- expires; and the expiration time and a second more, counted from the signer's last reading of the
  -- clock, end no later than the verifier's limit counted from its first, which with the default
  -- durations is not so. The storage accepts this nonce until this expiration, the key server then has
  -- a key that fits the signature, go-oidc reads back what it signed, and the claims verifiers pass.
  pub signed_forwarded :
      (r : Request) (rt : RoundTripper) (p : P) (key : jose.PrivateKey) (params : SignerParams)
      (w : Entropy clock S) (nonce : Bytes) (source : S) (jwt : jose.Jwt) (audience : Url)
      (max_skew max_ttl : Duration) (v : W) (public_key : jose.PublicKey)
      → (get_private_key p).0 ≡ ok key
      → lookup (codes "Authorization") r.header ≡ none
      → generate_nonce int63 params.nonce_length w.source ≡ some (nonce, source)
      → let claims =
          make_claims r params
            (first_reading clock w.time)
            (second_reading clock w.time)
            (third_reading clock w.time)
            nonce in
        jose.new_signed_jwt claims (jose.signer key) ≡ ok jwt
        → (back : IsReadBack jose claims key jwt) → IsOrdinary max_skew
        → IsOrdinary max_ttl
        → IsInTime
            (first_reading clock w.time)
            (second_reading clock w.time)
            (third_reading clock w.time)
            (verifier_clock v).0
            params
            max_skew
            max_ttl
        → IsAudience lib (origin r.url) audience
        → let recorded =
            nonce_storage.verify nonce
              (expiration (third_reading clock w.time) params)
              (verifier_clock v).1 in
          recorded.0 ≡ true
          → (key_server.get_public_key params.issuer (jose.private_key_id key) recorded.1).0
            ≡ ok public_key
          → IsSigned jose (record { jwt = jwt; claims = back.decoded }) public_key
          → AllPass claims_verifiers
              (add_token jose r jwt)
              back.decoded
              (verify lib jose verifier_clock key_server nonce_storage
                (add_token jose r jwt)
                audience
                max_skew
                max_ttl
                v).1
          → (w' : Entropy clock S) × (signer_handler jose clock int63 get_private_key params r
                (p, w)
              ≡ some ((add_token jose r jwt, none), ((get_private_key p).1, w')))
            × ((verifier_handler lib jose verifier_clock key_server nonce_storage claims_verifiers
                  upstream audience max_skew max_ttl
                  (add_token jose r jwt, rt)
                  v).0
                ≡ record {
                  request = (route lib upstream (add_token jose r jwt, rt)).0;
                  round_tripper = (route lib upstream (add_token jose r jwt, rt)).1;
                  response = none;
                })
  signed_forwarded r rt p key params w nonce source jwt audience skew ttl v pk provided bare drawn
        made back hs ht timely aud fresh served signed pass =
      let (w', goes_on, accepted) =
        sign_verify jose clock int63 lib verifier_clock key_server nonce_storage r key params w
          nonce source jwt audience skew ttl v pk bare drawn made back hs ht timely aud fresh served
          signed in
      (
        w',
        signer_signs jose clock int63 get_private_key params r (add_token jose r jwt) p w w' key
            provided goes_on,
        verifier_forwards lib jose verifier_clock key_server nonce_storage claims_verifiers upstream
            audience skew ttl (add_token jose r jwt) rt v back.decoded accepted pass,
      )
