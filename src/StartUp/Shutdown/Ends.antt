-- ===== src/StartUp/Shutdown/Ends.antt =====
-- Once the proxies and the components have stopped, the goroutines of the shutdown come to an end.
use mathlib.Core.Path.{subst}
use jwtproxy.Common.{
  ℕ, suc, ◌+◌, ◌≤◌, ◌≡◌, refl, sym, ap, inl, inr, true, Bool-cases, List, [], ◌∷◌, ◌++◌, length,
  ◌==◌, ==_iff, arith,
}
use jwtproxy.StartUp.Stopper
use jwtproxy.StartUp.Stopper.{Pc, begins, finished, Stopping}
use jwtproxy.StartUp.Stopper.Laws.{stops_finish}
use jwtproxy.StartUp.Shutdown.{
  proxy, component, own, Shutdown, Event, proxy_closes, component_closes, stopper_runs, waiter_runs,
  is_finished, moved, ends, run_stopper, step, run, own_channels, start,
}
use jwtproxy.StartUp.Shutdown.Placed.{waits_closed}
use jwtproxy.StartUp.Shutdown.Progress.{
  waiter_turns, own_closes, own_open, waiter_events, waiter_run, waiter_events-turns,
}
use jwtproxy.StartUp.Shutdown.Alone.{
  stopper_turns, seen, moved_self, moved_other, stopper_events, stopper_run, stopper_events-turns,
}
use jwtproxy.Stop.Waiter
use jwtproxy.Stop.Waiter.{Wait, contains, when_done_comes}

-- A goroutine that is at its end has closed `done`.
IsAnnounced : Shutdown → Type 0
IsAnnounced s =
    (i : ℕ) → is_finished (s.stoppers i) ≡ true → contains (own i) s.waiter.closed ≡ true

run_stopper-contains :
    (s : Shutdown) (i c : ℕ)
    → contains c s.waiter.closed ≡ true
    → contains c (run_stopper s i).waiter.closed ≡ true
unfolding contains Waiter.step
run_stopper-contains s i c h = elim (Bool-cases (ends s i)) [
  | inl e ↦ rw (own_closes s i e) (ground arith)
  | inr e ↦ rw (own_open s i e) h
]

own_announced :
    (s : Shutdown) (i : ℕ)
    → IsAnnounced s
    → is_finished (moved i (s.stoppers i) s.waiter.closed) ≡ true
    → contains (own i) (run_stopper s i).waiter.closed ≡ true
unfolding IsAnnounced contains Waiter.step ends
own_announced s i told h = elim (Bool-cases (ends s i)) [
  | inl e ↦ rw (own_closes s i e) (ground (arith, ==_iff (own i) (own i)))
  | inr e ↦ rw (own_open s i e) (ground (arith, told i))
]

run_stopper-IsAnnounced : (s : Shutdown) (i : ℕ) → IsAnnounced s → IsAnnounced (run_stopper s i)
unfolding IsAnnounced
run_stopper-IsAnnounced s i told j h = elim (Bool-cases (i == j)) [
  | inl e ↦
      subst (λ k. contains (own k) (run_stopper s i).waiter.closed ≡ true) (same e)
        (own_announced s i told (rw (sym (same e), moved_self s i) at h))
  | inr e ↦ run_stopper-contains s i (own j) (told j (rw (moved_other s j i e) at h))
]
  where
    same : (i == j) ≡ true → i ≡ j
    same e = ground (arith, ==_iff i j)

step-IsAnnounced : (s : Shutdown) (e : Event) → IsAnnounced s → IsAnnounced (step s e)
unfolding IsAnnounced step contains Waiter.step
step-IsAnnounced s (proxy_closes i) told j h = ground (arith, told j h)
step-IsAnnounced s (component_closes i) told j h = ground (arith, told j h)
step-IsAnnounced s (stopper_runs i) told j h = run_stopper-IsAnnounced s i told j h
step-IsAnnounced s waiter_runs told j h = rw (waits_closed s.waiter) (told j h)

run-IsAnnounced : (s : Shutdown) (es : List Event) → IsAnnounced s → IsAnnounced (run s es)
unfolding run
run-IsAnnounced s [] told = told
run-IsAnnounced s (e ∷ es) told = run-IsAnnounced (step s e) es (step-IsAnnounced s e told)

start-IsAnnounced : (taken : List ℕ) → IsAnnounced (start taken)
unfolding IsAnnounced is_finished
start-IsAnnounced taken i h = ground arith

run-append : (s : Shutdown) (es fs : List Event) → run s (es ++ fs) ≡ run (run s es) fs
unfolding run
run-append s [] fs = refl
run-append s (e ∷ es) fs = run-append (step s e) es fs

own_channels-closed :
    (taken closed : List ℕ)
    → ((i : ℕ) → contains i taken ≡ true → contains (own i) closed ≡ true)
    → (c : ℕ) → contains c (own_channels taken) ≡ true
    → contains c closed ≡ true
unfolding contains own_channels
own_channels-closed [] closed h c asked = ground arith
own_channels-closed (i ∷ taken) closed h c asked = ground (
  arith,
  h i,
  ==_iff i i,
  ==_iff (own i) c,
  own_channels-closed taken closed (λ j k. h j (ground arith)) c,
)

length-own_channels : (taken : List ℕ) → length (own_channels taken) ≡ length taken
unfolding own_channels
length-own_channels [] = refl
length-own_channels (i ∷ taken) = ap suc (length-own_channels taken)

-- what the stop function `i` sees, run by itself
alone : (taken : List ℕ) (i : ℕ) → List Event → Stopping
alone taken i es =
    Stopper.run (proxy i) (component i) (record { pc = begins; closed = [] })
      (stopper_events i (start taken) es)

seen-alone :
    (taken : List ℕ) (i : ℕ) (es : List Event) → seen i (run (start taken) es) ≡ alone taken i es
unfolding seen alone
seen-alone taken i es = stopper_run i (start taken) es

finishes_alone :
    (taken : List ℕ) (i : ℕ) (before during : List Event)
    → seen i (run (run (start taken) before) during)
      ≡ Stopper.run
          (proxy i)
          (component i)
          (alone taken i before)
          (stopper_events i (run (start taken) before) during)
finishes_alone taken i before during =
    let e = stopper_run i (run (start taken) before) during in rw (seen-alone taken i before) at e

-- With three turns of its goroutine, a stop function whose channels are closed has closed `done`.
stopper_ends :
    (taken : List ℕ) (before during : List Event) (i : ℕ)
    → (contains (proxy i) (run (start taken) before).waiter.closed ≡ true)
      × (contains (component i) (run (start taken) before).waiter.closed ≡ true)
    → 3 ≤ stopper_turns i during
    → contains (own i) (run (run (start taken) before) during).waiter.closed ≡ true
unfolding seen alone IsAnnounced is_finished
stopper_ends taken before during i (proxy_shut, component_shut) enough =
    let s = run (start taken) before in
    let first = stopper_events i (start taken) before in
    let second = stopper_events i s during in
    let closed_alone : s.waiter.closed ≡ (alone taken i before).closed =
      ap (λ t. t.closed) (seen-alone taken i before) in
    let end_alone =
      stops_finish (proxy i) (component i) [] first second (rw closed_alone at proxy_shut)
        (rw closed_alone at component_shut) (omega (arith, stopper_events-turns i s during)) in
    let at_end : (run s during).stoppers i ≡ finished =
      cc (ap (λ t. t.pc) (finishes_alone taken i before during), end_alone) in
    run-IsAnnounced s during (run-IsAnnounced (start taken) before (start-IsAnnounced taken)) i
      (rw at_end refl)

-- what `Group.Stop`'s goroutine sees, run by itself
waiter-alone :
    (taken : List ℕ) (before during : List Event)
    → (run (run (start taken) before) during).waiter
      ≡ Waiter.run
          (Waiter.start [] (own_channels taken))
          (waiter_events (start taken) (before ++ during))
waiter-alone taken before during =
    let e = waiter_run (start taken) (before ++ during) in
    rw (run-append (start taken) before during) at e

waiter_ends :
    (taken : List ℕ) (before during after : List Event)
    → ((i : ℕ)
        → contains i taken ≡ true
        → contains (own i) (run (run (start taken) before) during).waiter.closed ≡ true)
    → length taken + 1 ≤ waiter_turns after
    → (run (run (run (start taken) before) during) after).waiter.when_done ≡ true
waiter_ends taken before during after shut enough =
    let s = run (run (start taken) before) during in
    let alone : s.waiter
        ≡ Waiter.run (Waiter.start [] (own_channels taken))
            (waiter_events (start taken) (before ++ during)) =
      waiter-alone taken before during in
    let all = own_channels-closed taken s.waiter.closed shut in
    let ended =
      when_done_comes [] (own_channels taken) (waiter_events (start taken) (before ++ during))
        (waiter_events s after) (rw alone at all)
        (omega (arith, length-own_channels taken, waiter_events-turns s after)) in
    cc (
      ap (λ w. w.when_done) (waiter_run s after),
      ap (λ w. (Waiter.run w (waiter_events s after)).when_done) alone,
      ended,
    )

-- Once every proxy and every component that `Group.Stop` had stopped has closed its channel, whenDone
-- is closed after three turns of each stop function's goroutine and then one turn more of the
-- waiting goroutine than there are stop functions, whatever happens in between.
pub shutdown_ends :
    (taken : List ℕ) (before during after : List Event)
    → ((i : ℕ)
        → contains i taken ≡ true
        → (contains (proxy i) (run (start taken) before).waiter.closed ≡ true)
          × (contains (component i) (run (start taken) before).waiter.closed ≡ true))
    → ((i : ℕ) → contains i taken ≡ true → 3 ≤ stopper_turns i during)
    → length taken + 1 ≤ waiter_turns after
    → (run (run (run (start taken) before) during) after).waiter.when_done ≡ true
shutdown_ends taken before during after shut turned enough =
    waiter_ends taken before during after
      (λ i h. stopper_ends taken before during i (shut i h) (turned i h)) enough
