-- ===== src/StartUp/Tests.antt =====
-- What the default configuration starts.
use jwtproxy.Common.{◌≡◌, refl, [], ◌∷◌}
use jwtproxy.Config.{default_config}
use jwtproxy.StartUp.{start_reverse_proxies, run_proxies}
use jwtproxy.StartUp.Started.{forward_proxy}

by_default : run_proxies default_config ≡ forward_proxy default_config.signer_proxy ∷ []
unfolding run_proxies start_reverse_proxies
by_default = refl
