-- ===== src/StartUp/Shutdown/Alone.antt =====
-- The goroutine of a stop function runs in the shutdown as `Stopper` has it by itself.
use mathlib.Core.Path.{subst}
use jwtproxy.Common.{
  ℕ, suc, ◌≡◌, refl, sym, ap, inl, inr, true, false, Bool-cases, List, [], ◌∷◌, ◌==◌, ==_iff,
  if◌then◌else◌, arith,
}
use jwtproxy.StartUp.Stopper
use jwtproxy.StartUp.Stopper.{Pc, begins, waits_proxy, waits_component, finished, Stopping}
use jwtproxy.StartUp.Shutdown.{
  proxy, component, own, Shutdown, Event, proxy_closes, component_closes, stopper_runs, waiter_runs,
  update, moved, ends, run_stopper, step, run,
}
use jwtproxy.StartUp.Shutdown.Placed.{runs_closed, waits_closed}
use jwtproxy.Stop.Waiter
use jwtproxy.Stop.Waiter.{Wait, contains, when_done_comes}

-- how often the goroutine of the stop function `i` is scheduled
abbrev pub stopper_turns : ℕ → List Event → ℕ
stopper_turns i [] = 0
stopper_turns i (proxy_closes j ∷ es) = stopper_turns i es
stopper_turns i (component_closes j ∷ es) = stopper_turns i es
stopper_turns i (stopper_runs j ∷ es) =
    let rest = stopper_turns i es in if j == i then suc rest else rest
stopper_turns i (waiter_runs ∷ es) = stopper_turns i es

-- what the stop function `i` sees of the state
unfoldable pub seen : ℕ → Shutdown → Stopping
seen i s = record { pc = s.stoppers i; closed = s.waiter.closed }

-- what a turn of the stop function `j` is for the goroutine of `i`
turn_events : ℕ → Shutdown → ℕ → List Stopper.Event → List Stopper.Event
turn_events i s j rest =
    let closing = if ends s j then Stopper.closes (own j) ∷ rest else rest in
    if j == i then Stopper.runs ∷ closing else closing

pub stopper_events : ℕ → Shutdown → List Event → List Stopper.Event
stopper_events i s [] = []
stopper_events i s (e ∷ es) =
    let rest = stopper_events i (step s e) es in
    elim e [
      | proxy_closes j ↦ Stopper.closes (proxy j) ∷ rest
      | component_closes j ↦ Stopper.closes (component j) ∷ rest
      | stopper_runs j ↦ turn_events i s j rest
      | waiter_runs ↦ rest
    ]

abbrev goes : ℕ → Stopping → List Stopper.Event → Stopping
goes i = Stopper.run (proxy i) (component i)

closing_goes :
    (i : ℕ) (s : Shutdown) (j : ℕ) (pc : Pc) (rest : List Stopper.Event)
    → goes i
        (record { pc = pc; closed = s.waiter.closed })
        (if ends s j then Stopper.closes (own j) ∷ rest else rest)
      ≡ goes i (record { pc = pc; closed = (run_stopper s j).waiter.closed }) rest
unfolding Stopper.run run_stopper Stopper.step Waiter.step
closing_goes i s j pc rest = elim (Bool-cases (ends s j)) [
  | inl e ↦ rw (e, run_stopper) refl
  | inr e ↦ rw (e, run_stopper) refl
]

runs_moves :
    (i : ℕ) (pc : Pc) (closed : List ℕ)
    → Stopper.step (proxy i) (component i) (record { pc = pc; closed = closed }) Stopper.runs
      ≡ record { pc = moved i pc closed; closed = closed }
unfolding moved
runs_moves i pc closed =
    ap (λ c. record { pc = moved i pc closed; closed = c }) (runs_closed i pc closed)

pub moved_self :
    (s : Shutdown) (i : ℕ) → (run_stopper s i).stoppers i ≡ moved i (s.stoppers i) s.waiter.closed
unfolding run_stopper update
moved_self s i = ground (arith, ==_iff i i)

pub moved_other :
    (s : Shutdown) (i j : ℕ) → (j == i) ≡ false → (run_stopper s j).stoppers i ≡ s.stoppers i
unfolding run_stopper update
moved_other s i j e = rw e refl

own_turn_goes :
    (i : ℕ) (s : Shutdown) (rest : List Stopper.Event)
    → goes i (seen i s) (Stopper.runs ∷ (if ends s i then Stopper.closes (own i) ∷ rest else rest))
      ≡ goes i (seen i (run_stopper s i)) rest
unfolding seen Stopper.run
own_turn_goes i s rest = cc (turned, closing_goes i s i pc rest, placed)
  where
    pc : Pc
    pc = moved i (s.stoppers i) s.waiter.closed

    closing : List Stopper.Event
    closing = if ends s i then Stopper.closes (own i) ∷ rest else rest

    turned :
        goes i (seen i s) (Stopper.runs ∷ closing)
        ≡ goes i (record { pc = pc; closed = s.waiter.closed }) closing
    turned = ap (λ t. goes i t closing) (runs_moves i (s.stoppers i) s.waiter.closed)

    placed :
        goes i (record { pc = pc; closed = (run_stopper s i).waiter.closed }) rest
        ≡ goes i (seen i (run_stopper s i)) rest
    placed =
        ap (λ p. goes i (record { pc = p; closed = (run_stopper s i).waiter.closed }) rest)
          (sym (moved_self s i))

turn_goes :
    (i : ℕ) (s : Shutdown) (j : ℕ) (rest : List Stopper.Event)
    → goes i (seen i s) (turn_events i s j rest) ≡ goes i (seen i (run_stopper s j)) rest
unfolding seen turn_events
turn_goes i s j rest = elim (Bool-cases (j == i)) [
  | inl e ↦
      subst
        (λ k. goes i (seen i s) (turn_events i s k rest) ≡ goes i (seen i (run_stopper s k)) rest)
        (same e) own_turn
  | inr e ↦ rw (e, moved_other s i j e) (closing_goes i s j (s.stoppers i) rest)
]
  where
    same : (j == i) ≡ true → i ≡ j
    same e = ground (arith, ==_iff j i)

    reflexive : (i == i) ≡ true
    reflexive = ground (arith, ==_iff i i)

    own_turn : goes i (seen i s) (turn_events i s i rest) ≡ goes i (seen i (run_stopper s i)) rest
    own_turn = rw reflexive (own_turn_goes i s rest)

pub stopper_run :
    (i : ℕ) (s : Shutdown) (es : List Event)
    → seen i (run s es) ≡ goes i (seen i s) (stopper_events i s es)
unfolding run stopper_events Stopper.run step seen Stopper.step Waiter.step
stopper_run i s [] = refl
stopper_run i s (proxy_closes j ∷ es) = stopper_run i (step s (proxy_closes j)) es
stopper_run i s (component_closes j ∷ es) = stopper_run i (step s (component_closes j)) es
stopper_run i s (stopper_runs j ∷ es) = cc (
  stopper_run i (step s (stopper_runs j)) es,
  turn_goes i s j (stopper_events i (run_stopper s j) es),
)
stopper_run i s (waiter_runs ∷ es) = cc (stopper_run i (step s waiter_runs) es, unseen)
  where
    unseen : seen i (step s waiter_runs) ≡ seen i s
    unseen = ap (λ c. record { pc = s.stoppers i; closed = c }) (waits_closed s.waiter)

turn_events-turns :
    (i : ℕ) (s : Shutdown) (j : ℕ) (rest : List Stopper.Event)
    → Stopper.turns (turn_events i s j rest)
      ≡ (if j == i then suc (Stopper.turns rest) else Stopper.turns rest)
unfolding turn_events
turn_events-turns i s j rest = ground arith

pub stopper_events-turns :
    (i : ℕ) (s : Shutdown) (es : List Event)
    → Stopper.turns (stopper_events i s es) ≡ stopper_turns i es
unfolding stopper_events step
stopper_events-turns i s [] = refl
stopper_events-turns i s (proxy_closes j ∷ es) = stopper_events-turns i (step s (proxy_closes j)) es
stopper_events-turns i s (component_closes j ∷ es) =
    stopper_events-turns i (step s (component_closes j)) es
stopper_events-turns i s (stopper_runs j ∷ es) =
    let turned = turn_events-turns i s j (stopper_events i (run_stopper s j) es) in
    rw (stopper_events-turns i (run_stopper s j) es) at turned
stopper_events-turns i s (waiter_runs ∷ es) = stopper_events-turns i (step s waiter_runs) es
