-- ===== src/StartUp.antt =====
-- `RunProxies` of jwtproxy.go and `run` of cmd/jwtproxy/main.go: which proxies are started.
pub mod Threads
pub mod Laws
pub mod Stopper
pub mod Start
pub mod Shutdown
pub mod Entry
mod Tests
use jwtproxy.Common.{Bool, true, false, not, ◌&&◌, List, [], ◌∷◌, ◌++◌, if◌then◌else◌}
use jwtproxy.Config.{Config, SignerProxyConfig, VerifierProxyConfig}

-- a goroutine that `RunProxies` starts
pub data Started : Type 0 where
  forward_proxy : SignerProxyConfig → Started
  reverse_proxy : VerifierProxyConfig → Started

unfoldable pub start_reverse_proxies : List VerifierProxyConfig → List Started
start_reverse_proxies [] = []
start_reverse_proxies (cfg ∷ rest) =
    let more = start_reverse_proxies rest in if cfg.enabled then reverse_proxy cfg ∷ more else more

-- `RunProxies`: the goroutines, in the order in which they are started.
unfoldable pub run_proxies : Config → List Started
run_proxies config =
    (if config.signer_proxy.enabled then forward_proxy config.signer_proxy ∷ [] else [])
    ++ start_reverse_proxies config.verifier_proxies

-- The loop at the start of `run`, which breaks at the first verifier that is enabled.
unfoldable pub verifier_enabled : List VerifierProxyConfig → Bool
verifier_enabled [] = false
verifier_enabled (cfg ∷ rest) =
    let more = verifier_enabled rest in if cfg.enabled then true else more

-- the test after it, by which the program ends at once
unfoldable pub is_nothing_enabled : Config → Bool
is_nothing_enabled config =
    not (verifier_enabled config.verifier_proxies) && not config.signer_proxy.enabled
