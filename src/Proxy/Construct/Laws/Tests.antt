-- ===== src/Proxy/Construct/Laws/Tests.antt =====
-- Handlers of components that count in a number what was made and stopped.
use jwtproxy.Common.{ℕ, suc, ◌≡◌, refl, some, [], ◌∷◌, Bytes, codes, bytes_eq}
use jwtproxy.Common.Result.{ok, err, message, text}
use jwtproxy.Time.{minutes}
use jwtproxy.Config.{ComponentConfig, VerifierConfig, default_config}
use jwtproxy.Registry.{Constructor}
use jwtproxy.Stop.{StopperFunc, add_func}
use jwtproxy.Jwt.Plain.{upstream}
use jwtproxy.Proxy.Construct.{
  Component, VerifierHandler, check_config, new_verifiers, new_verifier_handler, new_signer_handler,
}
use jwtproxy.Proxy.Construct.Laws.{new_verifier_handler_stops, stop_funcs}

abbrev stopper : ℕ → StopperFunc ℕ
stopper c n = (some c, suc n)

abbrev made : ℕ → Component ℕ (Unit {0})
made c = record { impl = tt; stop_func = stopper c }

-- makes a component whose channel is c
abbrev makes : ℕ → Constructor ℕ (Component ℕ (Unit {0}))
makes c cfg n = (ok (made c), suc n)

abbrev fails : Constructor ℕ (Component ℕ (Unit {0}))
fails cfg n = (err (message (codes "no")), n)

abbrev component : Bytes → ComponentConfig
component type = record { type = type; options = [] }

abbrev cfg : VerifierConfig
cfg = record {
  upstream = some upstream;
  audience = some upstream;
  max_skew = minutes 5;
  max_ttl = minutes 5;
  key_server = component (codes "keyregistry");
  nonce_storage = component (codes "local");
  claims_verifiers = some (component (codes "static") ∷ []);
}

abbrev handler : VerifierHandler ℕ (Unit {0}) (Unit {0}) (Unit {0})
handler = record {
  upstream = upstream;
  audience = upstream;
  key_server = made 1;
  nonce_storage = made 2;
  verifiers = made 3 ∷ [];
  stopper = record { stoppables = stopper 1 ∷ stopper 2 ∷ stopper 3 ∷ [] };
}

complete : (new_verifier_handler (makes 3) (makes 1) (makes 2) cfg 0).0 ≡ ok handler
unfolding new_verifier_handler check_config new_verifiers add_func bytes_eq
complete = refl

new_verifier_handler_stops_example :
    (some upstream ≡ some upstream)
    × (some upstream ≡ some upstream)
    × (handler.stopper.stoppables ≡ stopper 1 ∷ stopper 2 ∷ stop_funcs (made 3 ∷ []))
new_verifier_handler_stops_example =
    new_verifier_handler_stops (makes 3) (makes 1) (makes 2) cfg 0 handler complete

-- Two components were made and nothing is left that could stop them.
left_running :
    new_verifier_handler {Verifier = Unit {0}} fails (makes 1) (makes 2) cfg 0
    ≡ (err (message (codes "could not instantiate claim verifier: no")), 2)
unfolding new_verifier_handler check_config new_verifiers bytes_eq text
left_running = refl

no_provider :
    (new_signer_handler (λ c p n. makes 1 c n) default_config.signer_proxy.signer 0).0
    ≡ err (message (codes "no private key provider specified"))
unfolding new_signer_handler bytes_eq
no_provider = refl
