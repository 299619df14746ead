-- ===== src/StartUp/Stopper/Laws/Tests.antt =====
-- A proxy with channel 1 and a signer with channel 2, of which the second is closed at once.
use jwtproxy.Common.{◌≡◌, refl, true, List, [], ◌∷◌}
use jwtproxy.Stop.Waiter.{contains}
use jwtproxy.StartUp.Stopper.{Event, closes, runs, begins, step, run}
use jwtproxy.StartUp.Stopper.Laws.{at}

abbrev events : List Event
events = closes 2 ∷ runs ∷ runs ∷ closes 1 ∷ []

proxy_closed : contains 1 (run 1 2 (at 1 2 begins []) events).closed ≡ true
unfolding run step contains
proxy_closed = refl

component_closed : contains 2 (run 1 2 (at 1 2 begins []) events).closed ≡ true
unfolding run step contains
component_closed = refl
