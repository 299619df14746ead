-- ===== src/StartUp/Stopper/Laws.antt =====
-- The proxy has stopped before its component is told to, and in the end both have.
mod Tests
use mathlib.Core.Path.{subst}
use jwtproxy.Common.{
  ℕ, suc, ◌+◌, ◌-◌, ◌≤◌, ◌≡◌, ◌≢◌, refl, inl, inr, Bool-cases, Bool, true, false, ◌||◌, List, [],
  ◌∷◌, if◌then◌else◌, arith,
}
use jwtproxy.Stop.Waiter.{contains}
use jwtproxy.StartUp.Stopper.{
  Pc, begins, waits_proxy, waits_component, finished, Stopping, Event, closes, runs, step, run,
  turns,
}

module _ (proxy component : ℕ) where
  -- what is closed at each place of the goroutine
  unfoldable pub IsOrdered : Pc → List ℕ → Type 0
  IsOrdered begins closed = Unit
  IsOrdered waits_proxy closed = Unit
  IsOrdered waits_component closed = contains proxy closed ≡ true
  IsOrdered finished closed = (contains proxy closed ≡ true) × (contains component closed ≡ true)

  pub closes-IsOrdered :
      (pc : Pc) (c : ℕ) (closed : List ℕ) → IsOrdered pc closed → IsOrdered pc (c ∷ closed)
  unfolding IsOrdered contains
  closes-IsOrdered begins c closed h = tt
  closes-IsOrdered waits_proxy c closed h = tt
  closes-IsOrdered waits_component c closed h = ground arith
  closes-IsOrdered finished c closed h = (ground arith, ground arith)

  abbrev pub at : Pc → List ℕ → Stopping
  at pc closed = record { pc = pc; closed = closed }

  unfoldable pub Good : Stopping → Type 0
  Good s = IsOrdered s.pc s.closed

  pub step-Good :
      (pc : Pc) (closed : List ℕ) (e : Event)
      → IsOrdered pc closed
      → Good (step proxy component (at pc closed) e)
  unfolding step Good IsOrdered
  step-Good pc closed (closes c) h = closes-IsOrdered pc c closed h
  step-Good begins closed runs h = tt
  step-Good waits_proxy closed runs h = elim (Bool-cases (contains proxy closed)) [
    | inl e ↦ rw (e, step) e
    | inr e ↦ rw (e, step) tt
  ]
  step-Good waits_component closed runs h = elim (Bool-cases (contains component closed)) [
    | inl e ↦ rw (e, step) (h, e)
    | inr e ↦ rw (e, step) h
  ]
  step-Good finished closed runs h = h

  run-Good : (s : Stopping) (es : List Event) → Good s → Good (run proxy component s es)
  unfolding run Good
  run-Good s [] h = h
  run-Good s (e ∷ es) h = run-Good (step proxy component s e) es (step-Good s.pc s.closed e h)

  -- Whatever else is closed and however the goroutine is scheduled: the component is told to stop only
  -- after the proxy's channel is closed, and the stop function's own channel is closed only after both.
  stops_in_order :
      (closed : List ℕ) (es : List Event)
      → let s = run proxy component (at begins closed) es in
        (s.pc ≡ waits_component → contains proxy s.closed ≡ true)
        × (s.pc ≡ finished
            → (contains proxy s.closed ≡ true) × (contains component s.closed ≡ true))
  unfolding Good IsOrdered
  stops_in_order closed es =
      let good : Good (run proxy component (at begins closed) es) =
        run-Good (at begins closed) es tt in
      let shut = (run proxy component (at begins closed) es).closed in
      (λ e. subst (λ pc. IsOrdered pc shut) e good, λ e. subst (λ pc. IsOrdered pc shut) e good)

  -- the turns that the goroutine needs yet
  abbrev rank : Pc → ℕ
  rank begins = 3
  rank waits_proxy = 2
  rank waits_component = 1
  rank finished = 0

  rank_le : (pc : Pc) → rank pc ≤ 3
  rank_le begins = omega arith
  rank_le waits_proxy = omega arith
  rank_le waits_component = omega arith
  rank_le finished = omega arith

  rank_zero : (pc : Pc) → rank pc ≤ 0 → pc ≡ finished
  rank_zero begins h = ground arith
  rank_zero waits_proxy h = ground arith
  rank_zero waits_component h = ground arith
  rank_zero finished h = refl

  runs-rank :
      (pc : Pc) (closed : List ℕ)
      → contains proxy closed ≡ true
      → contains component closed ≡ true
      → (rank (step proxy component (at pc closed) runs).pc ≤ rank pc - 1)
        × ((step proxy component (at pc closed) runs).closed ≡ closed)
  unfolding step
  runs-rank begins closed h k = (omega arith, refl)
  runs-rank waits_proxy closed h k = rw (h, step) (omega arith, refl)
  runs-rank waits_component closed h k = rw (k, step) (omega arith, refl)
  runs-rank finished closed h k = (omega arith, refl)

  run_finishes :
      (s : Stopping) (es : List Event)
      → contains proxy s.closed ≡ true
      → contains component s.closed ≡ true
      → rank s.pc ≤ turns es
      → (run proxy component s es).pc ≡ finished
  unfolding run step contains
  run_finishes s [] h k enough = rank_zero s.pc enough
  run_finishes s (closes c ∷ es) h k enough =
      run_finishes (record s { closed = c ∷ s.closed }) es (kept proxy h) (kept component k) enough
    where
      kept : (d : ℕ) → contains d s.closed ≡ true → contains d (c ∷ s.closed) ≡ true
      kept d e = ground arith
  run_finishes s (runs ∷ es) h k enough =
      let (less, same) = runs-rank s.pc s.closed h k in
      run_finishes (step proxy component s runs) es (rw same h) (rw same k) (omega (arith, less))

  -- Once both channels are closed, the stop function's own channel is closed within three turns of the
  -- goroutine, from wherever it is.
  pub stops_finish :
      (closed : List ℕ) (before after : List Event)
      → contains proxy (run proxy component (at begins closed) before).closed ≡ true
      → contains component (run proxy component (at begins closed) before).closed ≡ true
      → 3 ≤ turns after
      → (run proxy component (run proxy component (at begins closed) before) after).pc ≡ finished
  stops_finish closed before after h k enough =
      let s = run proxy component (at begins closed) before in
      run_finishes s after h k (omega (arith, rank_le s.pc))
