-- ===== src/KeyRegistry/Stopping.antt =====
-- `Stop` of jwt/keyserver/keyregistry/keyregistry.go, beside the goroutines of `PublishPublicKey` that it
-- waits for: who has added to `inFlight`, and which channels are closed.
pub mod Laws
mod Quiet
mod Moves
mod Turns
pub mod Finish
use jwtproxy.Common.{
  ℕ, zero, suc, ◌+◌, ◌==◌, Bool, true, false, Option, none, some, List, [], ◌∷◌, ◌++◌,
  if◌then◌else◌,
}

-- A goroutine of `PublishPublicKey`: before the answer to its PUT, in the polling loop, or past Done.
pub data Flight : Type 0 where
  requests : Flight
  polls : Flight
  done : Flight

-- Where `Stop` is: not called, or where its goroutine is.
pub data Pc : Type 0 where
  running : Pc
  waits_flights : Pc
  waits_cache : Pc
  finished : Pc

pub record Life : Type 0 where
  pub flights : List Flight
  pub pc : Pc
  -- whether the cache's channel is closed
  pub cache_stopped : Bool

pub data Event : Type 0 where
  -- PublishPublicKey
  publishes : Event
  -- The PUT of this goroutine returns; true if the key needs an approval.
  answers : ℕ → Bool → Event
  -- This goroutine leaves its loop: a poll decides, or the publication is cancelled.
  leaves : ℕ → Event
  -- This goroutine's `select` takes the case of `krc.stopping`.
  sees_stopping : ℕ → Event
  -- Stop
  stops : Event
  -- the goroutine of Stop is scheduled
  runs : Event
  -- the cache closes its channel
  cache_stops : Event

abbrev pub start : Life
start = record { flights = []; pc = running; cache_stopped = false }

-- what a goroutine counts in `inFlight`
abbrev pub busy : Flight → ℕ
busy requests = 1
busy polls = 1
busy done = 0

-- `inFlight`
unfoldable pub in_flight : List Flight → ℕ
in_flight [] = 0
in_flight (x ∷ xs) = busy x + in_flight xs

unfoldable pub update : ℕ → (Flight → Flight) → List Flight → List Flight
update i f [] = []
update zero f (x ∷ xs) = f x ∷ xs
update (suc i) f (x ∷ xs) = x ∷ update i f xs

abbrev pub answer : Bool → Flight → Flight
answer true requests = polls
answer false requests = done
answer waits polls = polls
answer waits done = done

abbrev pub leave : Flight → Flight
leave requests = requests
leave polls = done
leave done = done

-- whether `krc.stopping` is closed
abbrev pub is_stopping : Pc → Bool
is_stopping running = false
is_stopping waits_flights = true
is_stopping waits_cache = true
is_stopping finished = true

-- `has_cache`: whether `krc.cache` is not nil.
module _ (has_cache : Bool) where
  -- None is the panic of closing `stopping` twice.
  unfoldable pub step : Life → Event → Option Life
  step s publishes = some (record s { flights = s.flights ++ requests ∷ [] })
  step s (answers i waits) = some (record s { flights = update i (answer waits) s.flights })
  step s (leaves i) = some (record s { flights = update i leave s.flights })
  step s (sees_stopping i) =
      some (if is_stopping s.pc then record s { flights = update i leave s.flights } else s)
  step s stops = if is_stopping s.pc then none else some (record s { pc = waits_flights })
  step s runs = some (elim s.pc [
    | running ↦ s
    | waits_flights ↦
        if in_flight s.flights == 0
        then record s { pc = if has_cache then waits_cache else finished }
        else s
    | waits_cache ↦ if s.cache_stopped then record s { pc = finished } else s
    | finished ↦ s
  ])
  step s cache_stops = some (record s { cache_stopped = true })

  unfoldable pub run : Life → List Event → Option Life
  run s [] = some s
  run s (e ∷ es) = elim (step s e) [ none ↦ none | some s' ↦ run s' es ]
