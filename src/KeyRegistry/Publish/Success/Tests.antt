-- ===== src/KeyRegistry/Publish/Success/Tests.antt =====
-- The registry accepts the key, has it wait for one poll, and then approves it.
use jwtproxy.Common.{
  ℕ, ◌==◌, ◌≡◌, refl, none, some, [], ◌∷◌, Bytes, codes, bytes_eq, lookup, if◌then◌else◌,
}
use jwtproxy.Common.Int.{◌+ℤ◌}
use jwtproxy.Common.Result.{ok}
use jwtproxy.Http.{
  Url, Response, header_add, header_del, header_set, http_ok, http_accepted, http_conflict,
}
use jwtproxy.Time.Ticking.{ticking}
use jwtproxy.Nonce.{generate_nonce}
use jwtproxy.Jwt.Sign.{Entropy, sign}
use jwtproxy.KeyServer.PublishResult.{set_result}
use jwtproxy.KeyRegistry.{Do, key_url, abs_url, prepare_request, sign_and_do}
use jwtproxy.KeyRegistry.Publish.{
  ticks, finished, publish_public_key, publish_url, handle_response, monitor, poll, check_status,
}
use jwtproxy.KeyRegistry.Publish.Laws.{published, set_to}
use jwtproxy.KeyRegistry.Publish.Success.{IsAccepted, success-IsAccepted}
use jwtproxy.KeyRegistry.Tests.{lib, krc, counting, entropy, policy, long_jose}

abbrev next : ℕ → ℕ
next n = if n == http_accepted then http_conflict else http_ok

abbrev registry : Do ℕ
registry r n = (ok (record { status = n; body = [] }), next n)

succeeded :
    published long_jose lib registry ticking counting krc tt policy tt
      (ticks ∷ ticks ∷ [])
      entropy
      http_accepted
    ≡ finished (set_to none)
unfolding publish_public_key handle_response monitor poll check_status set_result abs_url
    prepare_request sign_and_do bytes_eq header_add header_del header_set lookup sign generate_nonce
    ◌+ℤ◌
succeeded = refl

success-IsAccepted_example :
    (body : Bytes) × (url : Url) × (resp : Response) × (v : Entropy ticking ℕ × ℕ)
    × (lib.marshal_key tt ≡ ok body)
    × (key_url long_jose lib krc krc.signer_params.issuer (codes "0123456789") ≡ some url)
    × (sign_and_do long_jose lib registry ticking counting krc
          (codes "PUT")
          (publish_url long_jose lib registry policy url)
          body
          tt
          (entropy, http_accepted)
        ≡ some (ok resp, v))
    × IsAccepted long_jose lib registry url resp v.1
success-IsAccepted_example =
    success-IsAccepted long_jose lib registry ticking counting krc tt policy tt (ticks ∷ ticks ∷ [])
      entropy http_accepted succeeded
