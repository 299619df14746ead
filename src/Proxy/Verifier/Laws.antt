-- ===== src/Proxy/Verifier/Laws.antt =====
-- What the verifier proxy lets through to the upstream.
use jwtproxy.Common.{◌≡◌, refl, inl, inr, Option-cases, none, some, List, [], ◌∷◌, arith}
use jwtproxy.Common.Result.{Result-cases}
use jwtproxy.Http.{Url, UrlLib, Request, Response, http_forbidden}
use jwtproxy.Value.{Claims}
use jwtproxy.Time.{Time, Duration}
use jwtproxy.KeyServer.{Reader, NonceStorage}
use jwtproxy.Jwt.Library.{Jose}
use jwtproxy.Jwt.Verify.{Token, verify}
use jwtproxy.Jwt.Verify.Checked.{IsOrdinary}
use jwtproxy.Jwt.Verify.Accepted.{IsAccepted, verify_sound}
use jwtproxy.Proxy.Router.{RoundTripper, route}
use jwtproxy.Proxy.Verifier.{Handle, Handled, run_verifiers, verifier_handler}

-- the verifiers all pass, each in the state that the one before left
abbrev pub AllPass : {W : Type 0} → List (Handle W) → Request → Claims → W → Type 0
AllPass [] r c w = Unit
AllPass (v ∷ vs) r c w = ((v r c w).0 ≡ none) × AllPass vs r c (v r c w).1

run_verifiers-AllPass :
    {W : Type 0} (vs : List (Handle W)) (r : Request) (c : Claims) (w : W)
    → (run_verifiers vs r c w).0 ≡ none
    → AllPass vs r c w
unfolding run_verifiers
run_verifiers-AllPass [] r c w h = tt
run_verifiers-AllPass (v ∷ vs) r c w h = elim (Option-cases (v r c w).0) [
  | inl e ↦ (e, run_verifiers-AllPass vs r c (v r c w).1 (rw (e, run_verifiers) at h))
  | inr (x, e) ↦ cc (rw (e, run_verifiers) at h)
]

module _ (lib : UrlLib) (jose : Jose) {W : Type 0} (clock : W → Time × W)
    (key_server : Reader W jose.PublicKey) (nonce_storage : NonceStorage W)
    (claims_verifiers : List (Handle W)) (upstream audience : Url)
    (max_skew max_ttl : Duration) where
  abbrev pub handled : Request × RoundTripper → W → Handled × W
  handled =
      verifier_handler lib jose clock key_server nonce_storage claims_verifiers upstream audience
        max_skew max_ttl

  abbrev after_verify : Request → W → W
  after_verify r w =
      (verify lib jose clock key_server nonce_storage r audience max_skew max_ttl w).1

  -- A request goes on to the upstream, without a response of the proxy's own, only if it bears a token
  -- that passes every check of `Verify` and whose claims pass every claims verifier; what goes on
  -- is that request as the router rewrites it.
  pub forwarded_verified :
      IsOrdinary max_skew
      → IsOrdinary max_ttl
      → (r : Request) (rt : RoundTripper) (w : W) → (handled (r, rt) w).0.response ≡ none
      → ((t : Token jose) × IsAccepted lib jose clock key_server nonce_storage r audience max_skew
            max_ttl w t
          × AllPass claims_verifiers r t.claims (after_verify r w))
        × (((handled (r, rt) w).0.request, (handled (r, rt) w).0.round_tripper)
            ≡ route lib upstream (r, rt))
  unfolding verifier_handler
  forwarded_verified hs ht r rt w h =
      elim (Result-cases
        (verify lib jose clock key_server nonce_storage r audience max_skew max_ttl w).0) [
          | inr (x, e) ↦ cc (rw (e, verifier_handler) at h)
          | inl (c, e) ↦
              elim (Option-cases (run_verifiers claims_verifiers r c (after_verify r w)).0) [
                | inr (x, f) ↦ cc (rw (e, f, verifier_handler) at h)
                | inl f ↦
                    let (t, a, same) =
                      verify_sound lib jose clock key_server nonce_storage r audience max_skew
                        max_ttl w c hs ht e in
                    (
                      (
                        t,
                        a,
                        rw (← same)
                            (run_verifiers-AllPass claims_verifiers r c (after_verify r w) f),
                      ),
                      rw (e, f, verifier_handler) refl,
                    )
              ]
        ]

  -- Any other request is answered by the proxy with status 403 and goes nowhere: the request and the
  -- round tripper are left as they were.
  refused_forbidden :
      (r : Request) (rt : RoundTripper) (w : W) (answer : Response)
      → (handled (r, rt) w).0.response ≡ some answer
      → (answer.status ≡ http_forbidden)
        × ((handled (r, rt) w).0.request ≡ r)
        × ((handled (r, rt) w).0.round_tripper ≡ rt)
  unfolding verifier_handler
  refused_forbidden r rt w answer h =
      elim (Result-cases
        (verify lib jose clock key_server nonce_storage r audience max_skew max_ttl w).0) [
          | inr (x, e) ↦ ground arith
          | inl (c, e) ↦
              elim (Option-cases (run_verifiers claims_verifiers r c (after_verify r w)).0) [
                | inr (x, f) ↦ ground arith
                | inl f ↦ cc (rw (e, f, verifier_handler) at h)
              ]
        ]
