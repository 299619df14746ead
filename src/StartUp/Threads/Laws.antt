-- ===== src/StartUp/Threads/Laws.antt =====
-- Which proxies are stopped: those that are in the group when main stops it.
mod Tests
use mathlib.Core.Path.{subst}
use jwtproxy.Common.{
  ℕ, ◌==◌, ==_iff, ◌≡◌, refl, sym, ap, ◌∙◌, inl, inr, Bool-cases, Bool, true, false, ◌||◌, List, [],
  ◌∷◌, ◌++◌, if◌then◌else◌, arith,
}
use jwtproxy.Common.Result.{Error}
use jwtproxy.Stop.Waiter.{contains}
use jwtproxy.StartUp.Start.{Cause, aborted, shutdown}
use jwtproxy.StartUp.Threads.{
  Stage, makes, sends, failed, serves, added, Outcome, no_handler, no_proxy, proxy, Main, waits,
  stopped, Threads, Event, returns, adds, aborts, serve_aborts, signals, started, put, stop_group,
  receive_abort, step, run,
}
use jwtproxy.StartUp.Threads.Listed.{
  in_group, IsListed, Good, put-IsListed, add-IsListed, stop_group-Good,
}

-- Events keep what is listed, and once main has stopped the group it stays so.
IsKept : Threads → Threads → Type 0
IsKept s s' =
    (Good s → Good s')
    × ((c : Cause) (taken : List ℕ) → s.main ≡ stopped c taken → s'.main ≡ stopped c taken)

-- A step moreover has main stop only what is in the group.
IsStep : Threads → Threads → Type 0
IsStep s s' =
    IsKept s s'
    × ((c : Cause) (taken : List ℕ) → s.main ≡ waits → s'.main ≡ stopped c taken → taken ≡ s.group)

same-IsStep : (s : Threads) → IsStep s s
unfolding IsStep IsKept
same-IsStep s = ((λ h. h, λ c taken h. h), λ c taken w h. cc)

put-IsStep :
    (s : Threads) (i : ℕ) (stage : Stage)
    → in_group (s.stages i) ≡ in_group stage
    → IsStep s (record s { stages = put i stage s.stages })
unfolding IsStep IsKept Good
put-IsStep s i stage same =
    ((λ h. put-IsListed s.main s.group s.stages i stage h same, λ c taken h. h), λ c taken w h. cc)

add-IsStep :
    (s : Threads) (i : ℕ) (stage : Stage)
    → in_group (s.stages i) ≡ false
    → in_group stage ≡ true
    → IsStep s (record s { stages = put i stage s.stages; group = s.group ++ i ∷ [] })
unfolding IsStep IsKept Good
add-IsStep s i stage out in_ = (
  (λ h. add-IsListed s.main s.group s.stages i stage h out in_, λ c taken h. h),
  λ c taken w h. cc,
)

stop_group-IsStep : (c : Cause) (s : Threads) → IsStep s (stop_group c s)
unfolding IsStep IsKept stop_group
stop_group-IsStep c s = (
  (stop_group-Good c s, λ d taken h. rw (h, stop_group) h),
  λ d taken w h. ap (taken_of s.group) (sym (rw (w, stop_group) at h)),
)
  where
    taken_of : List ℕ → Main → List ℕ
    taken_of group waits = group
    taken_of group (stopped c taken) = taken

then-IsKept : (s s1 s2 : Threads) → IsKept s s1 → IsKept s1 s2 → IsKept s s2
unfolding IsKept
then-IsKept s s1 s2 (g, k) (g', k') = (λ h. g' (g h), λ c taken h. k' c taken (k c taken h))

returns-IsStep :
    (s : Threads) (i : ℕ) (o : Outcome) (stage : Stage)
    → s.stages i ≡ stage
    → IsStep s (step s (returns i o))
unfolding step
returns-IsStep s i (no_handler e) makes at =
    rw (at, step) (put-IsStep s i (sends false e) (rw at refl))
returns-IsStep s i (no_proxy e) makes at =
    rw (at, step) (add-IsStep s i (sends true e) (rw at refl) refl)
returns-IsStep s i proxy makes at = rw (at, step) (put-IsStep s i serves (rw at refl))
returns-IsStep s i o (sends holds e) at = rw (at, step) (same-IsStep s)
returns-IsStep s i o (failed holds) at = rw (at, step) (same-IsStep s)
returns-IsStep s i o serves at = rw (at, step) (same-IsStep s)
returns-IsStep s i o added at = rw (at, step) (same-IsStep s)

adds-IsStep :
    (s : Threads) (i : ℕ) (stage : Stage) → s.stages i ≡ stage → IsStep s (step s (adds i))
unfolding step
adds-IsStep s i makes at = rw (at, step) (same-IsStep s)
adds-IsStep s i (sends holds e) at = rw (at, step) (same-IsStep s)
adds-IsStep s i (failed holds) at = rw (at, step) (same-IsStep s)
adds-IsStep s i serves at = rw (at, step) (add-IsStep s i added (rw at refl) refl)
adds-IsStep s i added at = rw (at, step) (same-IsStep s)

receive_abort-IsStep :
    (i : ℕ) (holds : Bool) (e : Error) (stages : ℕ → Stage) (group : List ℕ) (main : Main)
    → in_group (stages i) ≡ holds
    → let s : Threads = record { stages = stages; group = group; main = main } in
      IsStep s (receive_abort i holds e s)
unfolding receive_abort IsStep
receive_abort-IsStep i holds e stages group waits at =
    let s : Threads = record { stages = stages; group = group; main = waits } in
    let s' : Threads = record s { stages = put i (failed holds) stages } in
    let stops = stop_group-IsStep (aborted e) s' in
    (
      then-IsKept s s' (stop_group (aborted e) s') (put-IsStep s i (failed holds) at).0 stops.0,
      λ c taken w h. stops.1 c taken refl h,
    )
receive_abort-IsStep i holds e stages group (stopped c taken) at =
    same-IsStep (record { stages = stages; group = group; main = stopped c taken })

aborts-IsStep :
    (s : Threads) (i : ℕ) (stage : Stage) → s.stages i ≡ stage → IsStep s (step s (aborts i))
unfolding step
aborts-IsStep s i makes at = rw (at, step) (same-IsStep s)
aborts-IsStep s i (sends holds e) at =
    rw (at, step) (receive_abort-IsStep i holds e s.stages s.group s.main (rw at refl))
aborts-IsStep s i (failed holds) at = rw (at, step) (same-IsStep s)
aborts-IsStep s i serves at = rw (at, step) (same-IsStep s)
aborts-IsStep s i added at = rw (at, step) (same-IsStep s)

serve_aborts-IsStep :
    (s : Threads) (i : ℕ) (e : Error) (stage : Stage)
    → s.stages i ≡ stage
    → IsStep s (step s (serve_aborts i e))
unfolding step
serve_aborts-IsStep s i e makes at = rw (at, step) (same-IsStep s)
serve_aborts-IsStep s i e (sends holds x) at = rw (at, step) (same-IsStep s)
serve_aborts-IsStep s i e (failed holds) at = rw (at, step) (same-IsStep s)
serve_aborts-IsStep s i e serves at = rw (at, step) (stop_group-IsStep (aborted e) s)
serve_aborts-IsStep s i e added at = rw (at, step) (stop_group-IsStep (aborted e) s)

step-IsStep : (s : Threads) (e : Event) → IsStep s (step s e)
unfolding step
step-IsStep s (returns i o) = returns-IsStep s i o (s.stages i) refl
step-IsStep s (adds i) = adds-IsStep s i (s.stages i) refl
step-IsStep s (aborts i) = aborts-IsStep s i (s.stages i) refl
step-IsStep s (serve_aborts i e) = serve_aborts-IsStep s i e (s.stages i) refl
step-IsStep s signals = stop_group-IsStep shutdown s

run-IsKept : (s : Threads) (es : List Event) → IsKept s (run s es)
unfolding run IsStep
run-IsKept s [] = (same-IsStep s).0
run-IsKept s (e ∷ es) =
    then-IsKept s (step s e) (run (step s e) es) (step-IsStep s e).0 (run-IsKept (step s e) es)

-- Main stops what the goroutines have added by then and nothing else, whatever they and the signals do
-- before and after: if main still waits after some events and has stopped the group after the next, it
-- stays with these stop functions, and they are of exactly the goroutines that have added theirs, or the
-- component of a handler whose proxy could not be made. A proxy that is served but not yet added is not
-- among them.
pub stops_added :
    (before after : List Event) (e : Event) (c : Cause) (taken : List ℕ)
    → (run started before).main ≡ waits
    → (step (run started before) e).main ≡ stopped c taken
    → ((run (step (run started before) e) after).main ≡ stopped c taken)
      × ((i : ℕ) → contains i taken ≡ in_group ((run started before).stages i))
unfolding IsStep IsKept Good IsListed contains
stops_added before after e c taken w h =
    let s = run started before in
    let listed : IsListed s.main s.group s.stages = (run-IsKept started before).0 (λ j. refl) in
    let all_listed : (j : ℕ) → contains j s.group ≡ in_group (s.stages j) =
      subst (λ m. IsListed m s.group s.stages) w listed in
    (
      (run-IsKept (step s e) after).1 c taken h,
      λ i. rw ((step-IsStep s e).1 c taken w h) (all_listed i),
    )
