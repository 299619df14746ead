-- ===== src/Proxy/Verifier.antt =====
-- The handler of `NewJWTVerifierHandler` of jwt/proxy_handlers.go: a request that verifies and passes
-- every claims verifier is routed to the upstream.
pub mod Laws
pub mod Required
mod Tests
use jwtproxy.Common.{◌++◌, Option, none, some, List, [], ◌∷◌, Bytes, codes}
use jwtproxy.Common.Result.{Error, Result, ok, err, text}
use jwtproxy.Http.{Url, UrlLib, Request, Response, http_forbidden}
use jwtproxy.Value.{Claims}
use jwtproxy.Time.{Time, Duration}
use jwtproxy.KeyServer.{Reader, NonceStorage}
use jwtproxy.Jwt.Library.{Jose}
use jwtproxy.Jwt.Verify.{verify}
use jwtproxy.Proxy.Router.{RoundTripper, route}

-- `Handle` of a claims verifier; `none` is nil.
abbrev pub Handle : Type 0 → Type 0
Handle W = Request → Claims → W → Option Error × W

-- What a handler gives back: the request, the context's round tripper, and the response that is sent in
-- place of the request's own, if any.
pub record Handled : Type 0 where
  pub request : Request
  pub round_tripper : RoundTripper
  pub response : Option Response

-- Lines 130 to 135: the first error ends the loop.
unfoldable pub run_verifiers : {W : Type 0} → List (Handle W) → Handle W
run_verifiers [] r claims w = (none, w)
run_verifiers (verifier ∷ rest) r claims w =
    let (e, w') = verifier r claims w in
    let more = run_verifiers rest r claims w' in elim e [ some e ↦ (some e, w') | none ↦ more ]

-- goproxy.NewResponse with StatusForbidden
abbrev pub forbidden : Bytes → Response
forbidden body = record { status = http_forbidden; body = body }

module _ (lib : UrlLib) (jose : Jose) {W : Type 0} (clock : W → Time × W)
    (key_server : Reader W jose.PublicKey) (nonce_storage : NonceStorage W)
    (claims_verifiers : List (Handle W)) where
  unfoldable pub verifier_handler :
      (upstream audience : Url) (max_skew max_ttl : Duration)
      → Request × RoundTripper
      → W
      → Handled × W
  verifier_handler upstream audience max_skew max_ttl (r, rt) w =
      let (signed_claims, w') =
        verify lib jose clock key_server nonce_storage r audience max_skew max_ttl w in
      elim signed_claims [
        | err e ↦ (
          record {
            request = r;
            round_tripper = rt;
            response = some (forbidden (codes "jwtproxy: unable to verify request: " ++ text e));
          },
          w',
        )
        | ok claims ↦
            let (refused, w'') = run_verifiers claims_verifiers r claims w' in
            let (r', rt') = route lib upstream (r, rt) in
            elim refused [
              | some e ↦ (
                record {
                  request = r;
                  round_tripper = rt;
                  response = some (forbidden (codes "Error verifying claims: " ++ text e));
                },
                w'',
              )
              | none ↦ (record { request = r'; round_tripper = rt'; response = none }, w'')
            ]
      ]
