-- ===== src/Stop/Waiter.antt =====
-- The goroutine that `Group.Stop` starts, as a thread among others that close channels.
use jwtproxy.Common.{
  ℕ, suc, ◌+◌, ◌≤◌, ◌≡◌, ◌-◌, inl, inr, refl, Bool, true, false, ◌||◌, List, [], ◌∷◌, length, ◌==◌,
  ==_iff, if◌then◌else◌, Bool-cases, List-cases, arith,
}

unfoldable pub contains : ℕ → List ℕ → Bool
contains c [] = false
contains c (d ∷ ds) = d == c || contains c ds

-- the channels that are closed, what the goroutine still waits for, and whether it closed whenDone
pub record Wait : Type 0 where
  pub closed : List ℕ
  pub wait_channels : List ℕ
  pub when_done : Bool

pub data Event : Type 0 where
  -- somebody closes a channel
  closes : ℕ → Event
  -- the goroutine is scheduled
  runs : Event

-- A receive goes on if the channel is closed, and blocks if not.
unfoldable pub step : Wait → Event → Wait
step w (closes c) = record w { closed = c ∷ w.closed }
step w runs = elim w.wait_channels [
  | [] ↦ record w { when_done = true }
  | wait_for_me ∷ rest ↦
      if contains wait_for_me w.closed then record w { wait_channels = rest } else w
]

unfoldable pub run : Wait → List Event → Wait
run w [] = w
run w (e ∷ es) = run (step w e) es

-- how often the goroutine is scheduled
abbrev pub turns : List Event → ℕ
turns [] = 0
turns (closes c ∷ es) = turns es
turns (runs ∷ es) = suc (turns es)

abbrev pub start : List ℕ → List ℕ → Wait
start closed channels = record { closed = closed; wait_channels = channels; when_done = false }

-- Every channel is closed or still waited for, and once whenDone is closed none is waited for.
unfoldable pub IsSafe : List ℕ → Wait → Type 0
IsSafe channels w =
    ((c : ℕ)
      → contains c channels ≡ true
      → (contains c w.closed || contains c w.wait_channels) ≡ true)
    × (w.when_done ≡ true → w.wait_channels ≡ [])

pub step-IsSafe :
    (channels : List ℕ) (w : Wait) (e : Event) → IsSafe channels w → IsSafe channels (step w e)
unfolding step contains IsSafe
step-IsSafe channels w (closes c) (kept, idle) = (λ d h. ground (arith, kept d h), idle)
step-IsSafe channels w runs (kept, idle) = elim (List-cases w.wait_channels) [
  | inl e ↦ (λ d h. ground (arith, kept d h), ground arith)
  | inr (c, cs, e) ↦ elim (Bool-cases (contains c w.closed)) [
    | inl shut ↦ (λ d h. ground (arith, kept d h, ==_iff c d), ground arith)
    | inr open_still ↦ (λ d h. ground (arith, kept d h), ground arith)
  ]
]

run-IsSafe :
    (channels : List ℕ) (w : Wait) (es : List Event)
    → IsSafe channels w
    → IsSafe channels (run w es)
unfolding run
run-IsSafe channels w [] s = s
run-IsSafe channels w (e ∷ es) s = run-IsSafe channels (step w e) es (step-IsSafe channels w e s)

-- a channel that is closed stays closed
step-contains :
    (c : ℕ) (w : Wait) (e : Event)
    → contains c w.closed ≡ true
    → contains c (step w e).closed ≡ true
unfolding step contains
step-contains c w (closes d) h = ground arith
step-contains c w runs h = elim (List-cases w.wait_channels) [
  | inl e ↦ ground arith
  | inr (d, cs, e) ↦ ground arith
]

-- everything that is waited for is closed
AllShut : Wait → Type 0
AllShut w = (c : ℕ) → contains c w.wait_channels ≡ true → contains c w.closed ≡ true

-- the turns that the goroutine then needs
pending : Wait → ℕ
pending w = length w.wait_channels + (if w.when_done then 0 else 1)

closes-AllShut : (w : Wait) (d : ℕ) → AllShut w → AllShut (step w (closes d))
unfolding AllShut step
closes-AllShut w d shut c h = step-contains c w (closes d) (shut c h)

runs-AllShut : (w : Wait) → AllShut w → AllShut (step w runs)
unfolding AllShut step contains
runs-AllShut w shut c h = elim (List-cases w.wait_channels) [
  | inl e ↦ ground (arith, shut c)
  | inr (d, cs, e) ↦ ground (arith, shut c, shut d, ==_iff d d)
]

runs-pending : (w : Wait) → AllShut w → pending (step w runs) ≤ pending w - 1
unfolding AllShut pending step contains
runs-pending w shut = elim (List-cases w.wait_channels) [
  | inl e ↦ ground arith
  | inr (d, cs, e) ↦ ground (arith, shut d, ==_iff d d)
]

closes-pending : (w : Wait) (c : ℕ) → pending (step w (closes c)) ≡ pending w
unfolding pending step
closes-pending w c = refl

idle : (w : Wait) → pending w ≤ 0 → w.when_done ≡ true
unfolding pending
idle w h = ground arith

-- With all that it waits for closed, the goroutine gets one channel further each time it runs.
run_done :
    (w : Wait) (es : List Event) → AllShut w → pending w ≤ turns es → (run w es).when_done ≡ true
unfolding run
run_done w [] shut enough = idle w enough
run_done w (closes c ∷ es) shut enough =
    run_done (step w (closes c)) es (closes-AllShut w c shut) (omega (arith, closes-pending w c))
run_done w (runs ∷ es) shut enough =
    run_done (step w runs) es (runs-AllShut w shut) (omega (arith, runs-pending w shut))

-- whenDone is closed only after every channel that `Stop` collected is closed, whatever the
-- order in which the others close them and the goroutine is scheduled.
pub when_done_waits :
    (closed channels : List ℕ) (es : List Event) (c : ℕ)
    → (run (start closed channels) es).when_done ≡ true
    → contains c channels ≡ true
    → contains c (run (start closed channels) es).closed ≡ true
unfolding IsSafe contains
when_done_waits closed channels es c done asked =
    let safe : IsSafe channels (start closed channels) = (λ d h. ground arith, λ h. ground arith) in
    let (kept, emptied) : IsSafe channels (run (start closed channels) es) =
      run-IsSafe channels (start closed channels) es safe in
    ground (arith, kept c asked, emptied done)

step_waits :
    (c : ℕ) (w : Wait) (e : Event)
    → contains c (step w e).wait_channels ≡ true
    → contains c w.wait_channels ≡ true
unfolding step contains
step_waits c w (closes d) h = h
step_waits c w runs h = elim (List-cases w.wait_channels) [
  | inl e ↦ ground arith
  | inr (d, cs, e) ↦ ground arith
]

run_waits :
    (c : ℕ) (w : Wait) (es : List Event)
    → contains c (run w es).wait_channels ≡ true
    → contains c w.wait_channels ≡ true
unfolding run
run_waits c w [] h = h
run_waits c w (e ∷ es) h = step_waits c w e (run_waits c (step w e) es h)

step-pending : (w : Wait) (e : Event) → pending (step w e) ≤ pending w
unfolding step pending
step-pending w (closes c) = omega arith
step-pending w runs = elim (List-cases w.wait_channels) [
  | inl e ↦ ground arith
  | inr (d, cs, e) ↦ ground arith
]

run-pending : (w : Wait) (es : List Event) → pending (run w es) ≤ pending w
unfolding run
run-pending w [] = omega arith
run-pending w (e ∷ es) = omega (arith, run-pending (step w e) es, step-pending w e)

start-pending : (closed channels : List ℕ) → pending (start closed channels) ≡ length channels + 1
unfolding pending
start-pending closed channels = refl

-- Once every channel that `Stop` collected is closed, the goroutine closes whenDone in one turn more
-- than there are channels, at the latest, whatever else is closed meanwhile.
pub when_done_comes :
    (closed channels : List ℕ) (before after : List Event)
    → ((c : ℕ)
        → contains c channels ≡ true
        → contains c (run (start closed channels) before).closed ≡ true)
    → length channels + 1 ≤ turns after
    → (run (run (start closed channels) before) after).when_done ≡ true
unfolding AllShut
when_done_comes closed channels before after shut enough =
    let w = run (start closed channels) before in
    let waits : AllShut w = λ c h. shut c (run_waits c (start closed channels) before h) in
    run_done w after waits
      (omega (arith, run-pending (start closed channels) before, start-pending closed channels))
