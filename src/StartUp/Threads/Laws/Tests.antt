-- ===== src/StartUp/Threads/Laws/Tests.antt =====
-- Three goroutines: the first has added its proxy when the second one's error comes, and the third is
-- about to.
use jwtproxy.Common.{ℕ, ◌≡◌, refl, List, [], ◌∷◌, codes}
use jwtproxy.Common.Result.{message}
use jwtproxy.Stop.Waiter.{contains}
use jwtproxy.StartUp.Start.{aborted}
use jwtproxy.StartUp.Threads.{
  Event, returns, adds, aborts, signals, no_proxy, proxy, serves, stopped, started, put, stop_group,
  receive_abort, step, run,
}
use jwtproxy.StartUp.Threads.Listed.{in_group}
use jwtproxy.StartUp.Threads.Laws.{stops_added}

abbrev before : List Event
before =
    returns 0 proxy ∷ adds 0 ∷ returns 1 (no_proxy (message (codes "no CA"))) ∷ returns 2 proxy ∷ []

stops_added_example :
    ((run (step (run started before) (aborts 1)) (adds 2 ∷ signals ∷ [])).main
      ≡ stopped (aborted (message (codes "no CA"))) (0 ∷ 1 ∷ []))
    × ((i : ℕ) → contains i (0 ∷ 1 ∷ []) ≡ in_group ((run started before).stages i))
unfolding run step put stop_group receive_abort
stops_added_example =
    stops_added before (adds 2 ∷ signals ∷ []) (aborts 1) (aborted (message (codes "no CA")))
      (0 ∷ 1 ∷ []) refl refl

-- The third proxy serves, and its stop function comes into a group that nobody stops.
left_serving :
    ((run started before).stages 2 ≡ serves) × (contains 2 (0 ∷ 1 ∷ []) ≡ in_group serves)
unfolding run step put contains
left_serving = (refl, refl)
