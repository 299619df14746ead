-- ===== src/StartUp/Shutdown/Placed.antt =====
-- Where the goroutines of the stop functions are: the invariant, and that every event keeps it.
use mathlib.Core.Path.{subst}
use jwtproxy.Common.{
  ℕ, ◌≡◌, refl, inl, inr, true, false, Bool-cases, List-cases, List, ◌==◌, ==_iff, arith,
}
use jwtproxy.StartUp.Stopper
use jwtproxy.StartUp.Stopper.{Pc, begins, waits_proxy, waits_component, finished}
use jwtproxy.StartUp.Stopper.Laws.{IsOrdered, Good, closes-IsOrdered, step-Good}
use jwtproxy.StartUp.Shutdown.{
  proxy, component, own, Shutdown, is_finished, update, moved, ends, run_stopper,
}
use jwtproxy.Stop.Waiter
use jwtproxy.Stop.Waiter.{Wait, contains, IsSafe, step-IsSafe}

-- Each stop function's goroutine is where the channels allow it, with `done` closed only at its end.
unfoldable pub IsPlaced : Wait → ℕ → Pc → Type 0
IsPlaced w i pc =
    IsOrdered (proxy i) (component i) pc w.closed
    × (contains (own i) w.closed ≡ true → is_finished pc ≡ true)

-- closing a channel other than the stop function's own
pub closes-IsPlaced :
    (w : Wait) (i c : ℕ) (pc : Pc)
    → (c == own i) ≡ false
    → IsPlaced w i pc
    → IsPlaced (Waiter.step w (Waiter.closes c)) i pc
unfolding IsPlaced Waiter.step contains
closes-IsPlaced w i c pc other (ordered, shut) =
    (closes-IsOrdered (proxy i) (component i) pc c w.closed ordered, ground arith)

-- closing its own
own-IsPlaced :
    (w : Wait) (i : ℕ) (pc : Pc)
    → is_finished pc ≡ true
    → IsPlaced w i pc
    → IsPlaced (Waiter.step w (Waiter.closes (own i))) i pc
unfolding IsPlaced Waiter.step
own-IsPlaced w i pc end (ordered, shut) =
    (closes-IsOrdered (proxy i) (component i) pc (own i) w.closed ordered, λ h. end)

pub proxy_other : (i j : ℕ) → (proxy i == own j) ≡ false
proxy_other i j = ground (arith, ==_iff (proxy i) (own j))

pub component_other : (i j : ℕ) → (component i == own j) ≡ false
component_other i j = ground (arith, ==_iff (component i) (own j))

own_other : (i j : ℕ) → (i == j) ≡ false → (own i == own j) ≡ false
own_other i j h = ground (arith, ==_iff (own i) (own j), ==_iff i j)

pub runs_closed :
    (i : ℕ) (pc : Pc) (closed : List ℕ)
    → (Stopper.step
        (proxy i)
        (component i)
        (record { pc = pc; closed = closed })
        Stopper.runs).closed
      ≡ closed
unfolding Stopper.step
runs_closed i begins closed = refl
runs_closed i waits_proxy closed = elim (Bool-cases (contains (proxy i) closed)) [
  | inl e ↦ rw (e, Stopper.step) refl
  | inr e ↦ rw (e, Stopper.step) refl
]
runs_closed i waits_component closed = elim (Bool-cases (contains (component i) closed)) [
  | inl e ↦ rw (e, Stopper.step) refl
  | inr e ↦ rw (e, Stopper.step) refl
]
runs_closed i finished closed = refl

finished_stays :
    (i : ℕ) (pc : Pc) (closed : List ℕ)
    → is_finished pc ≡ true
    → is_finished (moved i pc closed) ≡ true
unfolding moved Stopper.step is_finished
finished_stays i begins closed h = ground arith
finished_stays i waits_proxy closed h = ground arith
finished_stays i waits_component closed h = ground arith
finished_stays i finished closed h = refl

-- a turn of the goroutine, before it closes `done`
moved-IsPlaced : (w : Wait) (i : ℕ) (pc : Pc) → IsPlaced w i pc → IsPlaced w i (moved i pc w.closed)
unfolding moved IsPlaced Good
moved-IsPlaced w i pc (ordered, shut) = (
  subst (IsOrdered (proxy i) (component i) (moved i pc w.closed)) (runs_closed i pc w.closed)
      (step-Good (proxy i) (component i) pc w.closed Stopper.runs ordered),
  λ h. finished_stays i pc w.closed (shut h),
)

ending :
    (s : Shutdown) (i : ℕ)
    → ends s i ≡ true
    → is_finished (moved i (s.stoppers i) s.waiter.closed) ≡ true
unfolding ends
ending s i h = ground arith

-- the goroutine's place, once it has closed `done` if it is to
self-IsPlaced :
    (s : Shutdown) (i : ℕ)
    → IsPlaced s.waiter i (s.stoppers i)
    → IsPlaced (run_stopper s i).waiter i (moved i (s.stoppers i) s.waiter.closed)
unfolding run_stopper
self-IsPlaced s i h =
    let pc = moved i (s.stoppers i) s.waiter.closed in
    elim (Bool-cases (ends s i)) [
      | inl e ↦
          rw (e, run_stopper)
            (own-IsPlaced s.waiter i pc (ending s i e) (moved-IsPlaced s.waiter i (s.stoppers i) h))
      | inr e ↦ rw (e, run_stopper) (moved-IsPlaced s.waiter i (s.stoppers i) h)
    ]

-- and the others'
others-IsPlaced :
    (s : Shutdown) (i j : ℕ)
    → (i == j) ≡ false
    → IsPlaced s.waiter j (s.stoppers j)
    → IsPlaced (run_stopper s i).waiter j (s.stoppers j)
unfolding run_stopper
others-IsPlaced s i j other h =
    let pc = moved i (s.stoppers i) s.waiter.closed in
    elim (Bool-cases (ends s i)) [
      | inl e ↦
          rw (e, run_stopper)
            (closes-IsPlaced s.waiter j (own i) (s.stoppers j) (own_other i j other) h)
      | inr e ↦ rw (e, run_stopper) h
    ]

pub run_stopper-IsPlaced :
    (s : Shutdown) (i : ℕ)
    → ((j : ℕ) → IsPlaced s.waiter j (s.stoppers j))
    → (j : ℕ) → IsPlaced (run_stopper s i).waiter j ((run_stopper s i).stoppers j)
unfolding run_stopper update
run_stopper-IsPlaced s i placed j = elim (Bool-cases (i == j)) [
  | inl e ↦ subst Placed (same e) (rw self (self-IsPlaced s i (placed i)))
  | inr e ↦ rw (e, update) (others-IsPlaced s i j e (placed j))
]
  where
    Placed : ℕ → Type 0
    Placed k = IsPlaced (run_stopper s i).waiter k ((run_stopper s i).stoppers k)

    same : (i == j) ≡ true → i ≡ j
    same e = ground (arith, ==_iff i j)

    self : (run_stopper s i).stoppers i ≡ moved i (s.stoppers i) s.waiter.closed
    self = ground (arith, ==_iff i i)

pub waits_closed : (w : Wait) → (Waiter.step w Waiter.runs).closed ≡ w.closed
unfolding Waiter.step
waits_closed w = elim (List-cases w.wait_channels) [
  | inl e ↦ ground arith
  | inr (c, cs, e) ↦ ground arith
]

-- a turn of the waiting goroutine moves no other
pub waits-IsPlaced :
    (w : Wait) (i : ℕ) (pc : Pc) → IsPlaced w i pc → IsPlaced (Waiter.step w Waiter.runs) i pc
unfolding IsPlaced
waits-IsPlaced w i pc h = rw (waits_closed w) h
