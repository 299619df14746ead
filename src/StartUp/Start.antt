-- ===== src/StartUp/Start.antt =====
-- `StartForwardProxy`, `StartReverseProxy` and `startProxy` of jwtproxy.go, and `run` of
-- cmd/jwtproxy/main.go as a whole: what they do, in order.
use jwtproxy.Common.{◌++◌, Option, none, some, List, [], ◌∷◌, Bytes, codes, if◌then◌else◌}
use jwtproxy.Common.Result.{Error, Result, ok, err, message, text}
use jwtproxy.Time.{Duration}
use jwtproxy.Config.{Config, SignerProxyConfig, VerifierProxyConfig}
use jwtproxy.StartUp.{Started, run_proxies, is_nothing_enabled}

-- A start sends an error to the abort channel, has the group stop the handler's component alone, serves
-- in a goroutine of its own, or adds the function that stops the proxy and then the component.
pub data Effect : Type 0 where
  aborts : Error → Effect
  adds_component : Effect
  serves : Bytes → Bytes → Bytes → Duration → Effect
  adds_stopper : Effect

-- With what `NewJWTSignerHandler` and `proxy.NewProxy` return.
unfoldable pub start_forward_proxy :
    {Handler Proxy : Type 0}
    → SignerProxyConfig
    → Result Handler
    → (Handler → Result Proxy)
    → List Effect
start_forward_proxy cfg signer new_proxy = elim signer [
  | err e ↦ aborts (message (codes "Failed to create JWT signer: " ++ text e)) ∷ []
  | ok handler ↦ elim (new_proxy handler) [
    | err e ↦
        adds_component ∷ aborts (message (codes "Failed to create forward proxy: " ++ text e)) ∷ []
    | ok proxy ↦ serves cfg.listen_addr [] [] cfg.shutdown_timeout ∷ adds_stopper ∷ []
  ]
]

unfoldable pub start_reverse_proxy :
    {Handler Proxy : Type 0}
    → VerifierProxyConfig
    → Result Handler
    → (Handler → Result Proxy)
    → List Effect
start_reverse_proxy cfg verifier new_proxy = elim verifier [
  | err e ↦ aborts (message (codes "Failed to create JWT verifier: " ++ text e)) ∷ []
  | ok handler ↦ elim (new_proxy handler) [
    | err e ↦
        adds_component ∷ aborts (message (codes "Failed to create reverse proxy: " ++ text e)) ∷ []
    | ok proxy ↦
        serves cfg.listen_addr cfg.crt_file cfg.key_file cfg.shutdown_timeout ∷ adds_stopper ∷ []
  ]
]

-- The goroutine of `startProxy`, once `Serve` has returned.
unfoldable pub serve_returned : Bytes → Option Error → List Effect
serve_returned proxy_name none = []
serve_returned proxy_name (some e) =
    aborts (message (codes "Failed to start " ++ (proxy_name ++ (codes " proxy: " ++ text e)))) ∷ []

-- What ends the waiting of `run`: a signal, or an error on the abort channel.
pub data Cause : Type 0 where
  shutdown : Cause
  aborted : Error → Cause

pub data RunStep : Type 0 where
  starts : List Started → RunStep
  waits_for : Cause → RunStep
  stops_group : RunStep
  resets_signals : RunStep
  waits_stopped : RunStep

-- `run`
unfoldable pub main_run : Config → Cause → List RunStep
main_run config cause =
    if is_nothing_enabled config
    then []
    else starts (run_proxies config)
      ∷ waits_for cause
      ∷ stops_group
      ∷ resets_signals
      ∷ waits_stopped
      ∷ []
