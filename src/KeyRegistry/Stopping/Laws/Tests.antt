-- ===== src/KeyRegistry/Stopping/Laws/Tests.antt =====
-- A client with a cache that publishes two keys, one of which is not approved before the client stops.
use jwtproxy.Common.{
  ℕ, zero, suc, ◌<◌, arith, ◌≡◌, refl, true, false, none, some, List, [], ◌∷◌, ◌++◌,
}
use jwtproxy.KeyRegistry.Stopping.{
  requests, polls, done, Life, Event, publishes, answers, leaves, sees_stopping, stops, runs,
  cache_stops, waits_flights, finished, start, in_flight, update, step, run,
}
use jwtproxy.KeyRegistry.Stopping.Laws.{NoPublish, stops_after_flights}
use jwtproxy.KeyRegistry.Stopping.Finish.{stop_finishes}
use jwtproxy.KeyRegistry.Stopping.Quiet.{occurs, answers_to, selects}

abbrev before : List Event
before = publishes ∷ publishes ∷ answers 0 true ∷ []

abbrev after : List Event
after = runs ∷ sees_stopping 0 ∷ answers 1 false ∷ runs ∷ runs ∷ cache_stops ∷ runs ∷ []

abbrev last : Life
last = record { flights = done ∷ done ∷ []; pc = finished; cache_stopped = true }

stopped : run true start (before ++ stops ∷ after) ≡ some last
unfolding run step update in_flight
stopped = refl

after-NoPublish : NoPublish after
unfolding NoPublish
after-NoPublish = (tt, (tt, (tt, (tt, (tt, (tt, (tt, tt)))))))

stops_after_flights_example :
    (in_flight last.flights ≡ 0) × (true ≡ true → last.cache_stopped ≡ true)
stops_after_flights_example =
    stops_after_flights true before after last after-NoPublish stopped refl

-- The goroutine of `Stop` still waits for the first key, and the PUT of the second is not answered.
abbrev midway : Life
midway = record { flights = polls ∷ requests ∷ []; pc = waits_flights; cache_stopped = false }

-- The second is answered before the first poll of the other, and a third turn changes nothing.
abbrev answered : List Event
answered = runs ∷ answers 1 true ∷ answers 0 false ∷ leaves 5 ∷ []

abbrev looked : List Event
looked = sees_stopping 1 ∷ runs ∷ cache_stops ∷ sees_stopping 0 ∷ []

is_answered : (i : ℕ) → i < 2 → occurs (answers_to i) answered ≡ true
unfolding occurs
is_answered zero h = refl
is_answered (suc zero) h = refl
is_answered (suc (suc i)) h = ground arith

has_looked : (i : ℕ) → i < 2 → occurs (selects i) looked ≡ true
unfolding occurs
has_looked zero h = refl
has_looked (suc zero) h = refl
has_looked (suc (suc i)) h = ground arith

stop_finishes_example :
    (end : Life) × (run true midway
        (answered ++ looked ++ (runs ∷ []) ++ (runs ∷ cache_stops ∷ []) ++ (runs ∷ runs ∷ []))
      ≡ some end)
    × (end.pc ≡ finished)
    × (in_flight end.flights ≡ 0)
unfolding occurs
stop_finishes_example =
    stop_finishes true midway answered looked (runs ∷ []) (runs ∷ cache_stops ∷ [])
      (runs ∷ runs ∷ []) refl
      (
        (tt, (tt, (tt, (tt, tt)))),
        (tt, (tt, (tt, (tt, tt)))),
        (tt, tt),
        (tt, (tt, tt)),
        (tt, (tt, tt)),
      )
      is_answered has_looked refl refl refl

-- A key that is published once the client has stopped is not waited for.
late :
    run false start (stops ∷ runs ∷ publishes ∷ [])
    ≡ some (record { flights = requests ∷ []; pc = finished; cache_stopped = false })
unfolding run step in_flight
late = refl

twice : run false start (stops ∷ stops ∷ []) ≡ none
unfolding run step
twice = refl
