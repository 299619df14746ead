-- ===== src/StartUp/Shutdown.antt =====
-- The shutdown as a whole: the goroutine that `Group.Stop` of stop/stopper.go starts, and one goroutine
-- for each stop function that `StartForwardProxy` or `StartReverseProxy` of jwtproxy.go added to the
-- group, interleaved in any order with the proxies and the components that close their channels. An
-- entry that `Add` alone made, for a handler whose proxy could not be created, has no goroutine of its
-- own: `Group.Stop` then waits for the component's channel itself, which Stop.Waiter covers.
pub mod Placed
pub mod Laws
pub mod Progress
pub mod Alone
pub mod Ends
mod Tests
use jwtproxy.Common.{ℕ, ◌+◌, ◌*◌, Bool, true, false, not, ◌&&◌, List, [], ◌∷◌, ◌==◌, if◌then◌else◌}
use jwtproxy.StartUp.Stopper
use jwtproxy.StartUp.Stopper.{Pc, begins, waits_proxy, waits_component, finished, Stopping}
use jwtproxy.Stop.Waiter
use jwtproxy.Stop.Waiter.{Wait}

-- The channels of the stop function `i`: the one that the proxy's `Stop` returns, the one that the
-- component's returns, and `done`.
abbrev pub proxy : ℕ → ℕ
proxy i = 3 * i

abbrev pub component : ℕ → ℕ
component i = 3 * i + 1

abbrev pub own : ℕ → ℕ
own i = 3 * i + 2

pub record Shutdown : Type 0 where
  -- the channels that are closed, and the goroutine of `Group.Stop`
  pub waiter : Wait
  -- where the goroutine of each stop function is
  pub stoppers : ℕ → Pc

pub data Event : Type 0 where
  -- the proxy has stopped, and closes its channel
  proxy_closes : ℕ → Event
  component_closes : ℕ → Event
  -- the goroutine of a stop function is scheduled
  stopper_runs : ℕ → Event
  -- the goroutine of `Group.Stop` is
  waiter_runs : Event

unfoldable pub is_finished : Pc → Bool
is_finished begins = false
is_finished waits_proxy = false
is_finished waits_component = false
is_finished finished = true

unfoldable pub update : (ℕ → Pc) → ℕ → Pc → ℕ → Pc
update pcs i pc j = if i == j then pc else pcs j

-- where a turn takes the goroutine of the stop function `i`
unfoldable pub moved : ℕ → Pc → List ℕ → Pc
moved i pc closed =
    (Stopper.step (proxy i) (component i) (record { pc = pc; closed = closed }) Stopper.runs).pc

-- whether the turn is the one in which it closes `done`
unfoldable pub ends : Shutdown → ℕ → Bool
ends s i = is_finished (moved i (s.stoppers i) s.waiter.closed) && not (is_finished (s.stoppers i))

unfoldable pub run_stopper : Shutdown → ℕ → Shutdown
run_stopper s i = record {
  waiter = if ends s i then Waiter.step s.waiter (Waiter.closes (own i)) else s.waiter;
  stoppers = update s.stoppers i (moved i (s.stoppers i) s.waiter.closed);
}

unfoldable pub step : Shutdown → Event → Shutdown
step s (proxy_closes i) = record s { waiter = Waiter.step s.waiter (Waiter.closes (proxy i)) }
step s (component_closes i) = record s {
  waiter = Waiter.step s.waiter (Waiter.closes (component i));
}
step s (stopper_runs i) = run_stopper s i
step s waiter_runs = record s { waiter = Waiter.step s.waiter Waiter.runs }

unfoldable pub run : Shutdown → List Event → Shutdown
run s [] = s
run s (e ∷ es) = run (step s e) es

-- the channels that `Group.Stop` gets from the stop functions it takes
unfoldable pub own_channels : List ℕ → List ℕ
own_channels [] = []
own_channels (i ∷ is) = own i ∷ own_channels is

-- when `Group.Stop` has called them all
abbrev pub start : List ℕ → Shutdown
start taken = record { waiter = Waiter.start [] (own_channels taken); stoppers = λ i. begins }
