-- ===== src/StartUp/Stopper.antt =====
-- The stop functions that `StartForwardProxy` and `StartReverseProxy` of jwtproxy.go add to the group: a
-- goroutine stops the proxy, waits for it, and then stops the handler's component and waits for that.
pub mod Laws
use jwtproxy.Common.{ℕ, suc, List, [], ◌∷◌, if◌then◌else◌}
use jwtproxy.Stop.Waiter.{contains}

-- where the goroutine is
pub data Pc : Type 0 where
  begins : Pc
  waits_proxy : Pc
  waits_component : Pc
  finished : Pc

-- The channels that are closed, and where the goroutine is.
pub record Stopping : Type 0 where
  pub pc : Pc
  pub closed : List ℕ

pub data Event : Type 0 where
  -- somebody closes a channel
  closes : ℕ → Event
  -- the goroutine is scheduled
  runs : Event

-- The proxy's `Stop` returns the channel `proxy`, the component's `component`.
module _ (proxy component : ℕ) where
  unfoldable pub step : Stopping → Event → Stopping
  step s (closes c) = record s { closed = c ∷ s.closed }
  step s runs = elim s.pc [
    | begins ↦ record s { pc = waits_proxy }
    | waits_proxy ↦ if contains proxy s.closed then record s { pc = waits_component } else s
    | waits_component ↦ if contains component s.closed then record s { pc = finished } else s
    | finished ↦ s
  ]

  unfoldable pub run : Stopping → List Event → Stopping
  run s [] = s
  run s (e ∷ es) = run (step s e) es

-- how often the goroutine is scheduled
abbrev pub turns : List Event → ℕ
turns [] = 0
turns (closes c ∷ es) = turns es
turns (runs ∷ es) = suc (turns es)
