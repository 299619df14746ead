-- ===== src/StartUp/Laws.antt =====
-- `run` and `RunProxies` agree on whether there is anything to run.
use jwtproxy.Common.{◌≡◌, ◌↔◌, inl, inr, Bool-cases, true, false, List, [], ◌∷◌, arith}
use jwtproxy.Config.{Config, VerifierProxyConfig}
use jwtproxy.StartUp.{start_reverse_proxies, run_proxies, verifier_enabled, is_nothing_enabled}

verifier_enabled_iff :
    (cfgs : List VerifierProxyConfig)
    → (verifier_enabled cfgs ≡ false) ↔ (start_reverse_proxies cfgs ≡ [])
unfolding verifier_enabled start_reverse_proxies
verifier_enabled_iff [] = ground arith
verifier_enabled_iff (cfg ∷ rest) = elim (Bool-cases cfg.enabled) [
  | inl e ↦ ground arith
  | inr e ↦ ground (arith, verifier_enabled_iff rest)
]

-- The program ends at once for want of an enabled proxy exactly if `RunProxies` would start none.
is_nothing_enabled_iff :
    (config : Config) → (is_nothing_enabled config ≡ true) ↔ (run_proxies config ≡ [])
unfolding is_nothing_enabled run_proxies
is_nothing_enabled_iff config = elim (Bool-cases config.signer_proxy.enabled) [
  | inl e ↦ ground arith
  | inr e ↦ ground (arith, verifier_enabled_iff config.verifier_proxies)
]
