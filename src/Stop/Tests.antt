-- ===== src/Stop/Tests.antt =====
-- Runs of a group of two stoppables, and the theorems on its goroutine there.
use jwtproxy.Common.{ℕ, suc, ◌≡◌, refl, true, Option, none, some, List, [], ◌∷◌, arith}
use jwtproxy.Stop.{Group, new_group, add_func, stop_all, stop}
use jwtproxy.Stop.Waiter.{Event, start, run, step, contains, when_done_waits, when_done_comes}
use jwtproxy.Stop.Waiter.Event.{closes, runs}

-- The state counts the stops.
abbrev stopper : ℕ → ℕ → Option ℕ × ℕ
stopper c n = (some c, suc n)

abbrev two : Group ℕ
two = record { stoppables = stopper 7 ∷ stopper 8 ∷ [] }

added : add_func (add_func new_group (stopper 7)) (stopper 8) ≡ two
unfolding add_func
added = refl

stopped : stop two 0 ≡ (some (7 ∷ 8 ∷ []), new_group, 2)
unfolding stop stop_all
stopped = refl

-- A nil channel panics, once the stoppers before it have run.
panics :
    stop (record two { stoppables = stopper 7 ∷ (λ n. (none, n)) ∷ stopper 8 ∷ [] }) 0
    ≡ (none, record two { stoppables = stopper 7 ∷ (λ n. (none, n)) ∷ stopper 8 ∷ [] }, 1)
unfolding stop stop_all
panics = refl

-- The second channel is closed first.
abbrev events : List Event
events = closes 8 ∷ runs ∷ closes 7 ∷ runs ∷ []

when_done_waits_example :
    contains 8
      (run (start [] (7 ∷ 8 ∷ [])) (closes 8 ∷ runs ∷ closes 7 ∷ runs ∷ runs ∷ runs ∷ [])).closed
    ≡ true
unfolding run step contains
when_done_waits_example =
    when_done_waits [] (7 ∷ 8 ∷ []) (closes 8 ∷ runs ∷ closes 7 ∷ runs ∷ runs ∷ runs ∷ []) 8 refl
      refl

-- Nothing is left to close.
shut :
    (c : ℕ)
    → contains c (7 ∷ 8 ∷ []) ≡ true
    → contains c (run (start [] (7 ∷ 8 ∷ [])) events).closed ≡ true
unfolding run step contains
shut c h = ground arith

when_done_comes_example :
    (run (run (start [] (7 ∷ 8 ∷ [])) events) (runs ∷ runs ∷ runs ∷ [])).when_done ≡ true
when_done_comes_example =
    when_done_comes [] (7 ∷ 8 ∷ []) events (runs ∷ runs ∷ runs ∷ []) shut (omega arith)
