-- ===== src/StartUp/Shutdown/Laws.antt =====
-- When whenDone of `Group.Stop` is closed, every proxy of the group has stopped, and every component.
use mathlib.Core.Path.{subst}
use jwtproxy.Common.{ℕ, ◌≡◌, refl, inl, inr, true, Bool-cases, List, [], ◌∷◌, ==_iff, arith}
use jwtproxy.StartUp.Stopper.{Pc, begins, waits_proxy, waits_component, finished}
use jwtproxy.StartUp.Stopper.Laws.{IsOrdered}
use jwtproxy.StartUp.Shutdown.{
  proxy, component, own, Shutdown, Event, proxy_closes, component_closes, stopper_runs, waiter_runs,
  is_finished, ends, run_stopper, step, run, own_channels, start,
}
use jwtproxy.Stop.Waiter
use jwtproxy.Stop.Waiter.{Wait, contains, IsSafe, step-IsSafe}
use jwtproxy.StartUp.Shutdown.Placed.{
  IsPlaced, closes-IsPlaced, proxy_other, component_other, run_stopper-IsPlaced, waits-IsPlaced,
}

unfoldable IsSound : List ℕ → Shutdown → Type 0
IsSound taken s =
    ((i : ℕ) → IsPlaced s.waiter i (s.stoppers i)) × IsSafe (own_channels taken) s.waiter

finished_only : (pc : Pc) → is_finished pc ≡ true → pc ≡ finished
unfolding is_finished
finished_only begins h = ground arith
finished_only waits_proxy h = ground arith
finished_only waits_component h = ground arith
finished_only finished h = refl

run_stopper-IsSafe :
    (taken : List ℕ) (s : Shutdown) (i : ℕ)
    → IsSafe (own_channels taken) s.waiter
    → IsSafe (own_channels taken) (run_stopper s i).waiter
unfolding run_stopper
run_stopper-IsSafe taken s i safe = elim (Bool-cases (ends s i)) [
  | inl e ↦
      rw (e, run_stopper) (step-IsSafe (own_channels taken) s.waiter (Waiter.closes (own i)) safe)
  | inr e ↦ rw (e, run_stopper) safe
]

step-IsSound :
    (taken : List ℕ) (s : Shutdown) (e : Event) → IsSound taken s → IsSound taken (step s e)
unfolding IsSound step
step-IsSound taken s (proxy_closes i) (placed, safe) = (
  λ j. closes-IsPlaced s.waiter j (proxy i) (s.stoppers j) (proxy_other i j) (placed j),
  step-IsSafe (own_channels taken) s.waiter (Waiter.closes (proxy i)) safe,
)
step-IsSound taken s (component_closes i) (placed, safe) = (
  λ j. closes-IsPlaced s.waiter j (component i) (s.stoppers j) (component_other i j) (placed j),
  step-IsSafe (own_channels taken) s.waiter (Waiter.closes (component i)) safe,
)
step-IsSound taken s (stopper_runs i) (placed, safe) =
    (run_stopper-IsPlaced s i placed, run_stopper-IsSafe taken s i safe)
step-IsSound taken s waiter_runs (placed, safe) = (
  λ j. waits-IsPlaced s.waiter j (s.stoppers j) (placed j),
  step-IsSafe (own_channels taken) s.waiter Waiter.runs safe,
)

run-IsSound :
    (taken : List ℕ) (s : Shutdown) (es : List Event) → IsSound taken s → IsSound taken (run s es)
unfolding run
run-IsSound taken s [] h = h
run-IsSound taken s (e ∷ es) h = run-IsSound taken (step s e) es (step-IsSound taken s e h)

own_channels-contains :
    (i : ℕ) (taken : List ℕ)
    → contains i taken ≡ true
    → contains (own i) (own_channels taken) ≡ true
unfolding contains own_channels
own_channels-contains i [] h = ground arith
own_channels-contains i (j ∷ taken) h =
    ground (arith, own_channels-contains i taken, ==_iff j i, ==_iff (own j) (own i))

start-IsSound : (taken : List ℕ) → IsSound taken (start taken)
unfolding IsSound IsPlaced IsOrdered IsSafe contains
start-IsSound taken = (λ i. (tt, λ h. ground arith), (λ c h. ground arith, λ h. ground arith))

finished-closed :
    (w : Wait) (i : ℕ) (pc : Pc)
    → IsPlaced w i pc
    → contains (own i) w.closed ≡ true
    → (contains (proxy i) w.closed ≡ true) × (contains (component i) w.closed ≡ true)
unfolding IsPlaced IsOrdered
finished-closed w i pc (ordered, shut) h =
    subst (λ q. IsOrdered (proxy i) (component i) q w.closed) (finished_only pc (shut h)) ordered

-- When whenDone is closed, the proxy and the component of every stop function that `Group.Stop` took
-- have closed their channels, in whatever order these close them and the goroutines are scheduled.
pub stopped_all :
    (taken : List ℕ) (es : List Event) (i : ℕ)
    → (run (start taken) es).waiter.when_done ≡ true
    → contains i taken ≡ true
    → (contains (proxy i) (run (start taken) es).waiter.closed ≡ true)
      × (contains (component i) (run (start taken) es).waiter.closed ≡ true)
unfolding IsSound IsSafe contains
stopped_all taken es i done asked =
    let s = run (start taken) es in
    let (placed, (kept, emptied)) : IsSound taken s =
      run-IsSound taken (start taken) es (start-IsSound taken) in
    let shut : contains (own i) s.waiter.closed ≡ true =
      ground (arith, kept (own i) (own_channels-contains i taken asked), emptied done) in
    finished-closed s.waiter i (s.stoppers i) (placed i) shut
