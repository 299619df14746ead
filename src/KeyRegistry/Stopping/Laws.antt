-- ===== src/KeyRegistry/Stopping/Laws.antt =====
-- The client's channel is closed behind every publication, and in the end it is.
mod Tests
use mathlib.Core.Path.{subst}
use jwtproxy.Common.{
  ℕ, zero, suc, ◌+◌, ◌==◌, ◌≤◌, ◌<◌, ◌≡◌, refl, sym, inl, inr, Bool-cases, Option-cases, Bool, true,
  false, Option, none, some, List, [], ◌∷◌, ◌++◌, if◌then◌else◌, ==_iff, arith,
}
use jwtproxy.KeyRegistry.Stopping.{
  Flight, requests, polls, done, Pc, running, waits_flights, waits_cache, finished, Life, Event,
  publishes, answers, leaves, sees_stopping, stops, runs, cache_stops, start, busy, in_flight,
  update, answer, leave, is_stopping, step, run,
}

abbrev pub IsCalm : Event → Type 0
IsCalm publishes = ⊥
IsCalm (answers i waits) = Unit
IsCalm (leaves i) = Unit
IsCalm (sees_stopping i) = Unit
IsCalm stops = Unit
IsCalm runs = Unit
IsCalm cache_stops = Unit

-- Nothing is published.
pub NoPublish : List Event → Type 0
NoPublish [] = Unit
NoPublish (e ∷ es) = IsCalm e × NoPublish es

answer-busy : (waits : Bool) (x : Flight) → busy (answer waits x) ≤ busy x
answer-busy true requests = omega arith
answer-busy false requests = omega arith
answer-busy waits polls = omega arith
answer-busy waits done = omega arith

leave-busy : (x : Flight) → busy (leave x) ≤ busy x
leave-busy requests = omega arith
leave-busy polls = omega arith
leave-busy done = omega arith

update-in_flight :
    (i : ℕ) (f : Flight → Flight) (xs : List Flight)
    → ((x : Flight) → busy (f x) ≤ busy x)
    → in_flight (update i f xs) ≤ in_flight xs
unfolding update in_flight
update-in_flight i f [] h = omega arith
update-in_flight zero f (x ∷ xs) h = omega (arith, h x)
update-in_flight (suc i) f (x ∷ xs) h = omega (arith, update-in_flight i f xs h)

-- What the goroutine of `Stop` has seen, at each place.
Seen : Bool → Pc → Bool → ℕ → Type 0
Seen has_cache running cache_stopped n = Unit
Seen has_cache waits_flights cache_stopped n = Unit
Seen has_cache waits_cache cache_stopped n = (has_cache ≡ true) × (n ≡ 0)
Seen has_cache finished cache_stopped n = (n ≡ 0) × (has_cache ≡ true → cache_stopped ≡ true)

fewer-Seen : (h : Bool) (pc : Pc) (c : Bool) (m n : ℕ) → n ≤ m → Seen h pc c m → Seen h pc c n
unfolding Seen
fewer-Seen h running c m n le seen = tt
fewer-Seen h waits_flights c m n le seen = tt
fewer-Seen h waits_cache c m n le (has, zero_) = (has, omega (arith, zero_))
fewer-Seen h finished c m n le (zero_, stopped) = (omega (arith, zero_), stopped)

stopped-Seen : (h : Bool) (pc : Pc) (c : Bool) (n : ℕ) → Seen h pc c n → Seen h pc true n
unfolding Seen
stopped-Seen h running c n seen = tt
stopped-Seen h waits_flights c n seen = tt
stopped-Seen h waits_cache c n seen = seen
stopped-Seen h finished c n (zero_, stopped) = (zero_, λ e. refl)

-- what holds of a state, if there is one
OnSome : Option Life → (Life → Type 0) → Type 0
OnSome none P = Unit
OnSome (some s) P = P s

IsSound : Bool → Life → Type 0
IsSound has_cache s = Seen has_cache s.pc s.cache_stopped (in_flight s.flights)

runs-IsSound :
    (pc : Pc) (fs : List Flight) (h c : Bool)
    → Seen h pc c (in_flight fs)
    → OnSome (step h (record { flights = fs; pc = pc; cache_stopped = c }) runs) (IsSound h)
unfolding step OnSome IsSound Seen
runs-IsSound running fs h c seen = tt
runs-IsSound waits_flights fs true c seen = elim (Bool-cases (in_flight fs == 0)) [
  | inl e ↦ rw e (refl, (==_iff (in_flight fs) 0).0 e)
  | inr e ↦ rw e tt
]
runs-IsSound waits_flights fs false c seen = elim (Bool-cases (in_flight fs == 0)) [
  | inl e ↦ rw e ((==_iff (in_flight fs) 0).0 e, λ k. cc)
  | inr e ↦ rw e tt
]
runs-IsSound waits_cache fs h true (has, none_left) = (none_left, λ e. refl)
runs-IsSound waits_cache fs h false seen = seen
runs-IsSound finished fs h c seen = seen

module _ (has_cache : Bool) where
  left-Seen :
      (s : Life) (i : ℕ)
      → IsSound has_cache s
      → Seen has_cache s.pc s.cache_stopped (in_flight (update i leave s.flights))
  unfolding IsSound
  left-Seen s i sound =
      fewer-Seen has_cache s.pc s.cache_stopped (in_flight s.flights)
        (in_flight (update i leave s.flights)) (update-in_flight i leave s.flights leave-busy) sound

  step-IsSound :
      (s : Life) (e : Event)
      → IsCalm e
      → IsSound has_cache s
      → OnSome (step has_cache s e) (IsSound has_cache)
  unfolding step OnSome IsSound Seen
  step-IsSound s publishes quiet sound = elim quiet [ ]
  step-IsSound s (answers i waits) quiet sound =
      fewer-Seen has_cache s.pc s.cache_stopped (in_flight s.flights)
        (in_flight (update i (answer waits) s.flights))
        (update-in_flight i (answer waits) s.flights (answer-busy waits)) sound
  step-IsSound s (leaves i) quiet sound = left-Seen s i sound
  step-IsSound s (sees_stopping i) quiet sound = elim (Bool-cases (is_stopping s.pc)) [
    | inl e ↦ rw e (left-Seen s i sound)
    | inr e ↦ rw e sound
  ]
  step-IsSound s stops quiet sound = elim (Bool-cases (is_stopping s.pc)) [
    | inl e ↦ rw e tt
    | inr e ↦ rw e tt
  ]
  step-IsSound s runs quiet sound = runs-IsSound s.pc s.flights has_cache s.cache_stopped sound
  step-IsSound s cache_stops quiet sound =
      stopped-Seen has_cache s.pc s.cache_stopped (in_flight s.flights) sound

  run-IsSound :
      (s : Life) (es : List Event)
      → NoPublish es
      → IsSound has_cache s
      → OnSome (run has_cache s es) (IsSound has_cache)
  unfolding run NoPublish OnSome
  run-IsSound s [] quiet sound = sound
  run-IsSound s (e ∷ es) (calm, quiet) sound = elim (Option-cases (step has_cache s e)) [
    | inl f ↦ rw (f, run) tt
    | inr (s', f) ↦
        let kept : OnSome (step has_cache s e) (IsSound has_cache) = step-IsSound s e calm sound in
        rw (f, run) (run-IsSound s' es quiet (rw f at kept))
  ]

  -- `Stop` is called behind any events.
  stopped-IsSound :
      (s : Life) (before after : List Event)
      → NoPublish after
      → OnSome (run has_cache s (before ++ stops ∷ after)) (IsSound has_cache)
  unfolding run OnSome step IsSound Seen
  stopped-IsSound s [] after quiet = elim (Bool-cases (is_stopping s.pc)) [
    | inl e ↦ rw (e, run) tt
    | inr e ↦ rw (e, run) (run-IsSound (record s { pc = waits_flights }) after quiet tt)
  ]
  stopped-IsSound s (e ∷ before) after quiet = elim (Option-cases (step has_cache s e)) [
    | inl f ↦ rw (f, run) tt
    | inr (s', f) ↦ rw (f, run) (stopped-IsSound s' before after quiet)
  ]

  -- Whatever was published before `Stop` and however its goroutine and the others are scheduled behind it,
  -- with nothing published any more: once the client's channel is closed, no goroutine of a publication is
  -- in flight, and the cache, if there is one, has stopped.
  pub stops_after_flights :
      (before after : List Event) (s : Life)
      → NoPublish after
      → run has_cache start (before ++ stops ∷ after) ≡ some s
      → s.pc ≡ finished
      → (in_flight s.flights ≡ 0) × (has_cache ≡ true → s.cache_stopped ≡ true)
  unfolding OnSome IsSound Seen
  stops_after_flights before after s quiet h e =
      let sound : OnSome (run has_cache start (before ++ stops ∷ after)) (IsSound has_cache) =
        stopped-IsSound start before after quiet in
      subst (λ pc. Seen has_cache pc s.cache_stopped (in_flight s.flights)) e (rw h at sound)
