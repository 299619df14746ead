-- ===== src/StartUp/Shutdown/Tests.antt =====
-- The shutdown of a signer proxy and a verifier proxy, of which the second stops first.
use jwtproxy.Common.{ℕ, ◌≡◌, ◌≤◌, ◌⊎◌, refl, inl, inr, true, List, [], ◌∷◌, ==_iff, arith}
use jwtproxy.StartUp.Stopper
use jwtproxy.StartUp.Stopper.Pc.{waits_proxy}
use jwtproxy.StartUp.Shutdown.{
  proxy, component, Event, is_finished, update, moved, ends, run_stopper, step, run, own_channels,
  start,
}
use jwtproxy.StartUp.Shutdown.Event.{proxy_closes, component_closes, stopper_runs, waiter_runs}
use jwtproxy.StartUp.Shutdown.Laws.{stopped_all}
use jwtproxy.StartUp.Shutdown.Alone.{stopper_turns}
use jwtproxy.StartUp.Shutdown.Ends.{shutdown_ends}
use jwtproxy.Stop.Waiter
use jwtproxy.Stop.Waiter.{contains}

abbrev both : List ℕ
both = 0 ∷ 1 ∷ []

-- the first proxy has not stopped yet
abbrev half : List Event
half =
    stopper_runs 0
    ∷ stopper_runs 1
    ∷ waiter_runs
    ∷ proxy_closes 1
    ∷ component_closes 1
    ∷ stopper_runs 1
    ∷ stopper_runs 1
    ∷ stopper_runs 0
    ∷ waiter_runs
    ∷ []

half_way :
    (run (start both) half).waiter ≡ Waiter.start (5 ∷ 4 ∷ 3 ∷ []) (2 ∷ 5 ∷ [])
    × (run (start both) half).stoppers 0 ≡ waits_proxy
unfolding run step run_stopper update moved ends is_finished own_channels contains Stopper.step
    Waiter.step
half_way = (refl, refl)

abbrev whole : List Event
whole =
    stopper_runs 0
    ∷ proxy_closes 1
    ∷ component_closes 1
    ∷ stopper_runs 1
    ∷ stopper_runs 1
    ∷ stopper_runs 1
    ∷ proxy_closes 0
    ∷ stopper_runs 0
    ∷ component_closes 0
    ∷ stopper_runs 0
    ∷ waiter_runs
    ∷ waiter_runs
    ∷ waiter_runs
    ∷ []

stopped_all_example :
    (contains (proxy 1) (run (start both) whole).waiter.closed ≡ true)
    × (contains (component 1) (run (start both) whole).waiter.closed ≡ true)
unfolding run step run_stopper update moved ends is_finished own_channels contains Stopper.step
    Waiter.step
stopped_all_example = stopped_all both whole 1 refl refl

-- Both have stopped before a goroutine runs.
abbrev all_close : List Event
all_close = proxy_closes 1 ∷ component_closes 1 ∷ proxy_closes 0 ∷ component_closes 0 ∷ []

abbrev turns : List Event
turns =
    stopper_runs 0
    ∷ stopper_runs 1
    ∷ stopper_runs 1
    ∷ waiter_runs
    ∷ stopper_runs 0
    ∷ stopper_runs 0
    ∷ stopper_runs 1
    ∷ []

abbrev waits : List Event
waits = waiter_runs ∷ waiter_runs ∷ waiter_runs ∷ []

only_both : (i : ℕ) → contains i both ≡ true → (i ≡ 0) ⊎ (i ≡ 1)
unfolding contains
only_both i h = ground (arith, ==_iff 0 i, ==_iff 1 i)

all_closed :
    (i : ℕ)
    → contains i both ≡ true
    → (contains (proxy i) (run (start both) all_close).waiter.closed ≡ true)
      × (contains (component i) (run (start both) all_close).waiter.closed ≡ true)
unfolding run step contains Waiter.step own_channels
all_closed i h = elim (only_both i h) [ inl e ↦ rw e (refl, refl) | inr e ↦ rw e (refl, refl) ]

turns_enough : (i : ℕ) → contains i both ≡ true → 3 ≤ stopper_turns i turns
turns_enough i h = elim (only_both i h) [ inl e ↦ rw e (omega arith) | inr e ↦ rw e (omega arith) ]

shutdown_ends_example : (run (run (run (start both) all_close) turns) waits).waiter.when_done ≡ true
shutdown_ends_example =
    shutdown_ends both all_close turns waits all_closed turns_enough (omega arith)
