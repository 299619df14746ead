-- ===== src/StartUp/Shutdown/Progress.antt =====
-- The goroutine of `Group.Stop` runs in the shutdown as `Stop.Waiter` has it by itself.
use jwtproxy.Common.{
  ℕ, suc, ◌≡◌, refl, ap, inl, inr, true, false, Bool-cases, List, [], ◌∷◌, if◌then◌else◌,
}
use jwtproxy.StartUp.Shutdown.{
  proxy, component, own, Shutdown, Event, proxy_closes, component_closes, stopper_runs, waiter_runs,
  ends, run_stopper, step, run,
}
use jwtproxy.Stop.Waiter
use jwtproxy.Stop.Waiter.{Wait, contains, when_done_comes}

-- how often that of `Group.Stop` is
abbrev pub waiter_turns : List Event → ℕ
waiter_turns [] = 0
waiter_turns (proxy_closes j ∷ es) = waiter_turns es
waiter_turns (component_closes j ∷ es) = waiter_turns es
waiter_turns (stopper_runs j ∷ es) = waiter_turns es
waiter_turns (waiter_runs ∷ es) = suc (waiter_turns es)

-- what a step is for the goroutine of `Group.Stop`
pub waiter_events : Shutdown → List Event → List Waiter.Event
waiter_events s [] = []
waiter_events s (e ∷ es) =
    let rest = waiter_events (step s e) es in
    elim e [
      | proxy_closes i ↦ Waiter.closes (proxy i) ∷ rest
      | component_closes i ↦ Waiter.closes (component i) ∷ rest
      | stopper_runs i ↦ if ends s i then Waiter.closes (own i) ∷ rest else rest
      | waiter_runs ↦ Waiter.runs ∷ rest
    ]

pub own_closes :
    (s : Shutdown) (i : ℕ)
    → ends s i ≡ true
    → (run_stopper s i).waiter ≡ Waiter.step s.waiter (Waiter.closes (own i))
unfolding run_stopper
own_closes s i e = rw (e, run_stopper) refl

pub own_open : (s : Shutdown) (i : ℕ) → ends s i ≡ false → (run_stopper s i).waiter ≡ s.waiter
unfolding run_stopper
own_open s i e = rw (e, run_stopper) refl

pub waiter_run :
    (s : Shutdown) (es : List Event) → (run s es).waiter ≡ Waiter.run s.waiter (waiter_events s es)
unfolding run waiter_events Waiter.run step
waiter_run s [] = refl
waiter_run s (proxy_closes i ∷ es) = waiter_run (step s (proxy_closes i)) es
waiter_run s (component_closes i ∷ es) = waiter_run (step s (component_closes i)) es
waiter_run s (stopper_runs i ∷ es) = elim (Bool-cases (ends s i)) [
  | inl e ↦ rw e cc (waiter_run (run_stopper s i) es, own_closes s i e)
  | inr e ↦ rw e cc (waiter_run (run_stopper s i) es, own_open s i e)
]
waiter_run s (waiter_runs ∷ es) = waiter_run (step s waiter_runs) es

pub waiter_events-turns :
    (s : Shutdown) (es : List Event) → Waiter.turns (waiter_events s es) ≡ waiter_turns es
unfolding waiter_events
waiter_events-turns s [] = refl
waiter_events-turns s (proxy_closes i ∷ es) = waiter_events-turns (step s (proxy_closes i)) es
waiter_events-turns s (component_closes i ∷ es) =
    waiter_events-turns (step s (component_closes i)) es
waiter_events-turns s (stopper_runs i ∷ es) = elim (Bool-cases (ends s i)) [
  | inl e ↦ rw e (waiter_events-turns (step s (stopper_runs i)) es)
  | inr e ↦ rw e (waiter_events-turns (step s (stopper_runs i)) es)
]
waiter_events-turns s (waiter_runs ∷ es) = ap suc (waiter_events-turns (step s waiter_runs) es)
