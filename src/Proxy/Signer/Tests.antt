-- ===== src/Proxy/Signer/Tests.antt =====
-- The signer's handler on a concrete request.
use jwtproxy.Common.{ℕ, ◌+◌, ◌*◌, ◌≡◌, refl, some, [], codes}
use jwtproxy.Common.Int.{pos}
use jwtproxy.Common.Result.{Result, err, message}
use jwtproxy.Time.{minutes}
use jwtproxy.Time.Ticking.{ticking}
use jwtproxy.Config.{SignerParams}
use jwtproxy.Jwt.Library.{Jose}
use jwtproxy.Jwt.Plain.{plain, request}
use jwtproxy.Jwt.Sign.{Entropy}
use jwtproxy.Proxy.Signer.{error_response, signer_handler}

abbrev params : SignerParams
params = record {
  issuer = codes "jwtproxy";
  expiration_time = minutes 1;
  max_skew = minutes 1;
  nonce_length = pos 3;
}

abbrev jose : Jose
jose = plain [] (codes "ok")

abbrev counting : ℕ → ℕ × ℕ
counting s = (s, s + 199)

abbrev entropy : Entropy ticking ℕ
entropy = record { time = 1000 * 1000000000; source = 199 }

-- as before the first key of an autogenerated provider is published
abbrev no_key : ℕ → Result (Unit {0}) × ℕ
no_key p = (err (message (codes "Not yet ready.")), p)

no_key_yet :
    signer_handler jose ticking counting no_key params request (0, entropy)
    ≡ some ((request, some (error_response (message (codes "Not yet ready.")))), (0, entropy))
unfolding signer_handler
no_key_yet = refl
