-- ===== src/KeyRegistry/Stopping/Moves.antt =====
-- How far the goroutines of the publications are, beside a `Stop` of the client that is under way.
use jwtproxy.Common.{
  ℕ, ◌≤◌, ◌≡◌, refl, sym, inl, inr, Bool-cases, Bool, true, none, some, List, [], ◌∷◌, ◌++◌, ==_iff,
  arith,
}
use jwtproxy.KeyRegistry.Stopping.{
  Flight, Pc, running, waits_flights, waits_cache, finished, Life, Event, publishes, answers,
  leaves, sees_stopping, stops, runs, cache_stops, answer, leave, is_stopping, step, run,
}
use jwtproxy.KeyRegistry.Stopping.Quiet.{
  IsQuiet, AllQuiet, answers_to, selects, occurs, nth, rank, answer-rank, answer-done, leave-rank,
  update-rank, nth-update,
}

-- `Stop` has been called, and goroutine `i` is this far.
abbrev pub At : ℕ → ℕ → Life → Type 0
At r i s = (is_stopping s.pc ≡ true) × (rank (nth i s.flights) ≤ r)

module _ (has_cache : Bool) where
  -- where an event leads, if it does not panic
  abbrev pub moved : Life → Event → Life
  moved s e = elim (step has_cache s e) [ none ↦ s | some s' ↦ s' ]

  unfoldable pub moves : Life → List Event → Life
  moves s [] = s
  moves s (e ∷ es) = moves (moved s e) es

  -- Nothing that is quiet panics.
  step-moved : (s : Life) (e : Event) → IsQuiet e → step has_cache s e ≡ some (moved s e)
  unfolding step
  step-moved s publishes q = elim q [ ]
  step-moved s (answers i waits) q = refl
  step-moved s (leaves i) q = refl
  step-moved s (sees_stopping i) q = refl
  step-moved s stops q = elim q [ ]
  step-moved s runs q = refl
  step-moved s cache_stops q = refl

  pub run-moves :
      (s : Life) (es : List Event) → AllQuiet es → run has_cache s es ≡ some (moves s es)
  unfolding run moves
  run-moves s [] q = refl
  run-moves s (e ∷ es) (calm, q) = rw (step-moved s e calm, run) (run-moves (moved s e) es q)

  pub moves-append : (s : Life) (xs ys : List Event) → moves s (xs ++ ys) ≡ moves (moves s xs) ys
  unfolding moves
  moves-append s [] ys = refl
  moves-append s (e ∷ xs) ys = moves-append (moved s e) xs ys

  -- A predicate that every quiet event keeps
  abbrev pub IsKept : (Life → Type 0) → Type 0
  IsKept P = (s : Life) (e : Event) → IsQuiet e → P s → P (moved s e)

  pub stays :
      (P : Life → Type 0)
      → IsKept P
      → (s : Life) (es : List Event) → AllQuiet es
      → P s
      → P (moves s es)
  unfolding moves
  stays P kept s [] q p = p
  stays P kept s (e ∷ es) (calm, q) p = stays P kept (moved s e) es q (kept s e calm p)

  -- One event of a kind leads from one kept predicate to another.
  pub comes :
      (Q P : Life → Type 0) (t : Event → Bool)
      → IsKept Q
      → IsKept P
      → ((s : Life) (e : Event) → IsQuiet e → t e ≡ true → Q s → P (moved s e))
      → (s : Life) (es : List Event) → AllQuiet es
      → occurs t es ≡ true
      → Q s
      → P (moves s es)
  unfolding moves occurs
  comes Q P t keeps_q keeps_p leads s [] q o h = cc
  comes Q P t keeps_q keeps_p leads s (e ∷ es) (calm, q) o h = elim (Bool-cases (t e)) [
    | inl k ↦ stays P keeps_p (moved s e) es q (leads s e calm k h)
    | inr k ↦ comes Q P t keeps_q keeps_p leads (moved s e) es q (rw k at o) (keeps_q s e calm h)
  ]

  turn-is_stopping :
      (pc : Pc) (fs : List Flight) (c : Bool)
      → is_stopping pc ≡ true
      → (is_stopping (moved (record { flights = fs; pc = pc; cache_stopped = c }) runs).pc ≡ true)
        × ((moved (record { flights = fs; pc = pc; cache_stopped = c }) runs).flights ≡ fs)
  unfolding step
  turn-is_stopping running fs c h = cc
  turn-is_stopping waits_flights fs c h = ground arith
  turn-is_stopping waits_cache fs c h = ground arith
  turn-is_stopping finished fs c h = (refl, refl)

  pub At-kept : (r i : ℕ) → IsKept (At r i)
  unfolding step
  At-kept r i s publishes q h = elim q [ ]
  At-kept r i s (answers j w) q (h, le) =
      (h, omega (arith, le, update-rank i j (answer w) s.flights (λ x. (answer-rank w x).0)))
  At-kept r i s (leaves j) q (h, le) =
      (h, omega (arith, le, update-rank i j leave s.flights (λ x. (leave-rank x).0)))
  At-kept r i s (sees_stopping j) q (h, le) =
      rw h (h, omega (arith, le, update-rank i j leave s.flights (λ x. (leave-rank x).0)))
  At-kept r i s stops q h = elim q [ ]
  At-kept r i s runs q (h, le) =
      let (stopping, same) = turn-is_stopping s.pc s.flights s.cache_stopped h in
      (stopping, rw same le)
  At-kept r i s cache_stops q h = h

  pub answered :
      (i : ℕ) (s : Life) (e : Event)
      → IsQuiet e
      → answers_to i e ≡ true
      → At 2 i s
      → At 1 i (moved s e)
  unfolding step
  answered i s publishes q k h = cc
  answered i s (answers j w) q k (h, le) = (
    h,
    rw (sym ((==_iff i j).0 k), nth-update i (answer w) s.flights (answer-done w))
        ((answer-rank w (nth i s.flights)).1),
  )
  answered i s (leaves j) q k h = cc
  answered i s (sees_stopping j) q k h = cc
  answered i s stops q k h = cc
  answered i s runs q k h = cc
  answered i s cache_stops q k h = cc

  pub selected :
      (i : ℕ) (s : Life) (e : Event)
      → IsQuiet e
      → selects i e ≡ true
      → At 1 i s
      → At 0 i (moved s e)
  unfolding step
  selected i s publishes q k h = cc
  selected i s (answers j w) q k h = cc
  selected i s (leaves j) q k h = cc
  selected i s (sees_stopping j) q k (h, le) = rw h (
    h,
    rw (sym ((==_iff i j).0 k), nth-update i leave s.flights refl)
        ((leave-rank (nth i s.flights)).1 le),
  )
  selected i s stops q k h = cc
  selected i s runs q k h = cc
  selected i s cache_stops q k h = cc
