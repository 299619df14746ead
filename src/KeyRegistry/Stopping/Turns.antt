-- ===== src/KeyRegistry/Stopping/Turns.antt =====
-- The turns of the goroutine of `Stop`, once every goroutine of a publication is past Done.
use jwtproxy.Common.{ℕ, ◌==◌, ◌≡◌, refl, ◌∙◌, Bool, true, false, List, ==_iff, arith}
use jwtproxy.KeyRegistry.Stopping.{
  Flight, Pc, running, waits_flights, waits_cache, finished, Life, Event, publishes, answers,
  leaves, sees_stopping, stops, runs, cache_stops, in_flight, is_stopping, step,
}
use jwtproxy.KeyRegistry.Stopping.Quiet.{IsQuiet, is_run, closes_cache, all_done}
use jwtproxy.KeyRegistry.Stopping.Moves.{moved, IsKept, At, At-kept}

abbrev pub AllDone : Life → Type 0
AllDone s = (i : ℕ) → At 0 i s

-- The goroutine of `Stop` has waited for the publications.
abbrev pub is_past : Pc → Bool
is_past running = false
is_past waits_flights = false
is_past waits_cache = true
is_past finished = true

abbrev pub IsPast : Life → Type 0
IsPast s = (is_past s.pc ≡ true) × AllDone s

abbrev pub IsClosed : Life → Type 0
IsClosed s = (s.cache_stopped ≡ true) × IsPast s

abbrev pub IsOver : Life → Type 0
IsOver s = (s.pc ≡ finished) × AllDone s

module _ (has_cache : Bool) where
  idle : (s : Life) → AllDone s → (in_flight s.flights == 0) ≡ true
  idle s h = (==_iff (in_flight s.flights) 0).1 (all_done s.flights λ i. (h i).1)

  pub AllDone-kept : IsKept has_cache AllDone
  AllDone-kept s e q h i = At-kept has_cache 0 i s e q (h i)

  turn_past :
      (pc : Pc) (fs : List Flight) (c : Bool)
      → is_past pc ≡ true
      → is_past (moved has_cache (record { flights = fs; pc = pc; cache_stopped = c }) runs).pc
        ≡ true
  unfolding step
  turn_past running fs c h = cc
  turn_past waits_flights fs c h = cc
  turn_past waits_cache fs c h = ground arith
  turn_past finished fs c h = refl

  pub IsPast-kept : IsKept has_cache IsPast
  unfolding step
  IsPast-kept s publishes q h = elim q [ ]
  IsPast-kept s (answers j w) q (h, d) = (h, AllDone-kept s (answers j w) q d)
  IsPast-kept s (leaves j) q (h, d) = (h, AllDone-kept s (leaves j) q d)
  IsPast-kept s (sees_stopping j) q (h, d) = (rw ((d 0).0) h, AllDone-kept s (sees_stopping j) q d)
  IsPast-kept s stops q h = elim q [ ]
  IsPast-kept s runs q (h, d) =
      (turn_past s.pc s.flights s.cache_stopped h, AllDone-kept s runs q d)
  IsPast-kept s cache_stops q (h, d) = (h, AllDone-kept s cache_stops q d)

  waited :
      (pc : Pc) (fs : List Flight) (c : Bool)
      → is_stopping pc ≡ true
      → (in_flight fs == 0) ≡ true
      → is_past (moved has_cache (record { flights = fs; pc = pc; cache_stopped = c }) runs).pc
        ≡ true
  unfolding step
  waited running fs c h k = cc
  waited waits_flights fs c h k = rw k (ground arith)
  waited waits_cache fs c h k = ground arith
  waited finished fs c h k = refl

  pub passes :
      (s : Life) (e : Event)
      → IsQuiet e
      → is_run e ≡ true
      → AllDone s
      → IsPast (moved has_cache s e)
  passes s publishes q k h = cc
  passes s (answers j w) q k h = cc
  passes s (leaves j) q k h = cc
  passes s (sees_stopping j) q k h = cc
  passes s stops q k h = cc
  passes s runs q k h =
      (waited s.pc s.flights s.cache_stopped ((h 0).0) (idle s h), AllDone-kept s runs q h)
  passes s cache_stops q k h = cc

  turn-cache_stopped :
      (pc : Pc) (fs : List Flight) (c : Bool)
      → (moved has_cache (record { flights = fs; pc = pc; cache_stopped = c }) runs).cache_stopped
        ≡ c
  unfolding step
  turn-cache_stopped running fs c = refl
  turn-cache_stopped waits_flights fs c = ground arith
  turn-cache_stopped waits_cache fs c = ground arith
  turn-cache_stopped finished fs c = refl

  cache_kept :
      (s : Life) (e : Event)
      → IsQuiet e
      → s.cache_stopped ≡ true
      → (moved has_cache s e).cache_stopped ≡ true
  unfolding step
  cache_kept s publishes q h = elim q [ ]
  cache_kept s (answers j w) q h = h
  cache_kept s (leaves j) q h = h
  cache_kept s (sees_stopping j) q h = ground arith
  cache_kept s stops q h = elim q [ ]
  cache_kept s runs q h = turn-cache_stopped s.pc s.flights s.cache_stopped ∙ h
  cache_kept s cache_stops q h = refl

  pub IsClosed-kept : IsKept has_cache IsClosed
  IsClosed-kept s e q (h, p) = (cache_kept s e q h, IsPast-kept s e q p)

  pub cache_closes :
      (s : Life) (e : Event)
      → IsQuiet e
      → closes_cache e ≡ true
      → IsPast s
      → IsClosed (moved has_cache s e)
  unfolding step
  cache_closes s publishes q k h = cc
  cache_closes s (answers j w) q k h = cc
  cache_closes s (leaves j) q k h = cc
  cache_closes s (sees_stopping j) q k h = cc
  cache_closes s stops q k h = cc
  cache_closes s runs q k h = cc
  cache_closes s cache_stops q k h = (refl, IsPast-kept s cache_stops q h)

  stays_over :
      (pc : Pc) (fs : List Flight) (c : Bool)
      → pc ≡ finished
      → (moved has_cache (record { flights = fs; pc = pc; cache_stopped = c }) runs).pc ≡ finished
  unfolding step
  stays_over running fs c h = cc
  stays_over waits_flights fs c h = cc
  stays_over waits_cache fs c h = cc
  stays_over finished fs c h = refl

  pub IsOver-kept : IsKept has_cache IsOver
  unfolding step
  IsOver-kept s publishes q h = elim q [ ]
  IsOver-kept s (answers j w) q (h, d) = (h, AllDone-kept s (answers j w) q d)
  IsOver-kept s (leaves j) q (h, d) = (h, AllDone-kept s (leaves j) q d)
  IsOver-kept s (sees_stopping j) q (h, d) = (rw ((d 0).0) h, AllDone-kept s (sees_stopping j) q d)
  IsOver-kept s stops q h = elim q [ ]
  IsOver-kept s runs q (h, d) =
      (stays_over s.pc s.flights s.cache_stopped h, AllDone-kept s runs q d)
  IsOver-kept s cache_stops q (h, d) = (h, AllDone-kept s cache_stops q d)

  last_turn :
      (pc : Pc) (fs : List Flight) (c : Bool)
      → is_past pc ≡ true
      → c ≡ true
      → (moved has_cache (record { flights = fs; pc = pc; cache_stopped = c }) runs).pc ≡ finished
  unfolding step
  last_turn running fs c h k = cc
  last_turn waits_flights fs c h k = cc
  last_turn waits_cache fs c h k = rw k refl
  last_turn finished fs c h k = refl

  pub last_run :
      (s : Life) (e : Event)
      → IsQuiet e
      → is_run e ≡ true
      → IsClosed s
      → IsOver (moved has_cache s e)
  last_run s publishes q k h = cc
  last_run s (answers j w) q k h = cc
  last_run s (leaves j) q k h = cc
  last_run s (sees_stopping j) q k h = cc
  last_run s stops q k h = cc
  last_run s runs q k (c, p) =
      (last_turn s.pc s.flights s.cache_stopped p.0 c, AllDone-kept s runs q p.1)
  last_run s cache_stops q k h = cc
