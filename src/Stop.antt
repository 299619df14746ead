-- ===== src/Stop.antt =====
-- `Group` of stop/stopper.go: what is added is stopped together, and a goroutine waits for the channels
-- that come back. A channel that only signals by being closed is a number.
pub mod Waiter
pub mod Laws
mod Tests
use jwtproxy.Common.{ℕ, Option, none, some, List, [], ◌∷◌, ◌++◌}

-- The state S is what stopping changes. The channel is none where it is nil.
abbrev pub StopperFunc : Type 0 → Type 0
StopperFunc S = S → Option ℕ × S

pub record Group (S : Type 0) : Type 0 where
  pub stoppables : List (StopperFunc S)

module _ {S : Type 0} where
  -- `NewGroup`
  abbrev pub new_group : Group S
  new_group = record { stoppables = [] }

  -- `AddFunc`, and `Add` with the `Stop` of what is added.
  unfoldable pub add_func : Group S → StopperFunc S → Group S
  add_func cg to_add = record { stoppables = cg.stoppables ++ to_add ∷ [] }

  -- The loop of `Stop`: the stoppers run in order; `none` is the panic at a nil channel.
  unfoldable pub stop_all : List (StopperFunc S) → S → Option (List ℕ) × S
  stop_all [] s = (some [], s)
  stop_all (to_stop ∷ rest) s =
      let (wait_for, s') = to_stop s in
      let (others, s'') = stop_all rest s' in
      elim wait_for [
        | none ↦ (none, s')
        | some c ↦ elim others [ none ↦ (none, s'') | some cs ↦ (some (c ∷ cs), s'') ]
      ]

  -- `Stop` up to the start of the goroutine: the channels it waits for, and the group afterwards, which
  -- is emptied unless it panicked.
  unfoldable pub stop : Group S → S → Option (List ℕ) × Group S × S
  stop cg s =
      let (channels, s') = stop_all cg.stoppables s in
      elim channels [ none ↦ (none, cg, s') | some cs ↦ (some cs, record { stoppables = [] }, s') ]
