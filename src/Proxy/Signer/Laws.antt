-- ===== src/Proxy/Signer/Laws.antt =====
-- What the signer proxy lets through.
use jwtproxy.Common.{ℕ, ◌≡◌, ◌⊎◌, inl, inr, Option-cases, Option, none, some, arith}
use jwtproxy.Common.Result.{Error, Result, ok, err, Result-cases}
use jwtproxy.Http.{Request, Response}
use jwtproxy.Time.{Clock}
use jwtproxy.Config.{SignerParams}
use jwtproxy.Jwt.Library.{Jose}
use jwtproxy.Jwt.Sign.{Entropy, sign}
use jwtproxy.Proxy.Signer.{error_response, signer_handler}

module _ (jose : Jose) (clock : Clock) {S P : Type 0} (int63 : S → ℕ × S)
    (get_private_key : P → Result jose.PrivateKey × P) (params : SignerParams) where
  -- A request goes on without an answer of the proxy's own only if the private key was there and
  -- `Sign` signed it, and it is the signed request that goes on; otherwise the answer has status
  -- 502 and the request is untouched.
  forwarded_signed :
      (r r' : Request) (p p' : P) (w w' : Entropy clock S) (answer : Option Response)
      → signer_handler jose clock int63 get_private_key params r (p, w)
        ≡ some ((r', answer), (p', w'))
      → ((answer ≡ none)
          × (key : jose.PrivateKey) × ((get_private_key p).0 ≡ ok key)
          × (sign jose clock int63 r key params w ≡ some (ok r', w')))
        ⊎ (e : Error) × (answer ≡ some (error_response e)) × (r' ≡ r)
  unfolding signer_handler
  forwarded_signed r r' p p' w w' answer h = elim (Result-cases (get_private_key p).0) [
    | inr (x, e) ↦ inr (x, ground arith, ground arith)
    | inl (key, e) ↦ elim (Option-cases (sign jose clock int63 r key params w)) [
      | inl f ↦ cc (rw (e, f, signer_handler) at h)
      | inr ((err x, v), f) ↦ inr (x, ground arith, ground arith)
      | inr ((ok s, v), f) ↦ inl (ground arith, key, e, ground arith)
    ]
  ]
