-- ===== src/KeyRegistry/Stopping/Quiet.antt =====
-- The events beside a `Stop` of the client that is under way.
use jwtproxy.Common.{
  ℕ, zero, suc, ◌==◌, ◌≤◌, ◌≡◌, refl, sym, Bool, true, false, List, [], ◌∷◌, length, if◌then◌else◌,
  arith,
}
use jwtproxy.KeyRegistry.Stopping.{
  Flight, requests, polls, done, Event, publishes, answers, leaves, sees_stopping, stops, runs,
  cache_stops, in_flight, update, answer, leave,
}

-- Neither PublishPublicKey nor Stop is called.
abbrev pub IsQuiet : Event → Type 0
IsQuiet publishes = ⊥
IsQuiet (answers i waits) = Unit
IsQuiet (leaves i) = Unit
IsQuiet (sees_stopping i) = Unit
IsQuiet stops = ⊥
IsQuiet runs = Unit
IsQuiet cache_stops = Unit

abbrev pub AllQuiet : List Event → Type 0
AllQuiet [] = Unit
AllQuiet (e ∷ es) = IsQuiet e × AllQuiet es

-- The answer to the PUT of goroutine `i`
abbrev pub answers_to : ℕ → Event → Bool
answers_to i publishes = false
answers_to i (answers j waits) = i == j
answers_to i (leaves j) = false
answers_to i (sees_stopping j) = false
answers_to i stops = false
answers_to i runs = false
answers_to i cache_stops = false

-- A turn of the `select` of goroutine `i`
abbrev pub selects : ℕ → Event → Bool
selects i publishes = false
selects i (answers j waits) = false
selects i (leaves j) = false
selects i (sees_stopping j) = i == j
selects i stops = false
selects i runs = false
selects i cache_stops = false

abbrev pub is_run : Event → Bool
is_run publishes = false
is_run (answers j waits) = false
is_run (leaves j) = false
is_run (sees_stopping j) = false
is_run stops = false
is_run runs = true
is_run cache_stops = false

abbrev pub closes_cache : Event → Bool
closes_cache publishes = false
closes_cache (answers j waits) = false
closes_cache (leaves j) = false
closes_cache (sees_stopping j) = false
closes_cache stops = false
closes_cache runs = false
closes_cache cache_stops = true

unfoldable pub occurs : (Event → Bool) → List Event → Bool
occurs t [] = false
occurs t (e ∷ es) = if t e then true else occurs t es

-- Past the end, there is no goroutine to wait for.
unfoldable pub nth : ℕ → List Flight → Flight
nth i [] = done
nth zero (x ∷ xs) = x
nth (suc i) (x ∷ xs) = nth i xs

abbrev pub rank : Flight → ℕ
rank requests = 2
rank polls = 1
rank done = 0

pub answer-rank : (w : Bool) (x : Flight) → (rank (answer w x) ≤ rank x) × (rank (answer w x) ≤ 1)
answer-rank true requests = (omega arith, omega arith)
answer-rank false requests = (omega arith, omega arith)
answer-rank w polls = (omega arith, omega arith)
answer-rank w done = (omega arith, omega arith)

pub answer-done : (w : Bool) → answer w done ≡ done
answer-done w = refl

pub leave-rank : (x : Flight) → (rank (leave x) ≤ rank x) × (rank x ≤ 1 → rank (leave x) ≤ 0)
leave-rank requests = (omega arith, λ h. omega (arith, h))
leave-rank polls = (omega arith, λ h. omega arith)
leave-rank done = (omega arith, λ h. omega arith)

-- What each goroutine does brings no other one back.
pub update-rank :
    (i j : ℕ) (f : Flight → Flight) (xs : List Flight)
    → ((x : Flight) → rank (f x) ≤ rank x)
    → rank (nth i (update j f xs)) ≤ rank (nth i xs)
unfolding nth update
update-rank i j f [] h = omega arith
update-rank zero zero f (x ∷ xs) h = h x
update-rank (suc i) zero f (x ∷ xs) h = omega arith
update-rank zero (suc j) f (x ∷ xs) h = omega arith
update-rank (suc i) (suc j) f (x ∷ xs) h = update-rank i j f xs h

pub nth-update :
    (i : ℕ) (f : Flight → Flight) (xs : List Flight)
    → f done ≡ done
    → nth i (update i f xs) ≡ f (nth i xs)
unfolding nth update
nth-update i f [] h = sym h
nth-update zero f (x ∷ xs) h = refl
nth-update (suc i) f (x ∷ xs) h = nth-update i f xs h

pub nth-length : (i : ℕ) (xs : List Flight) → length xs ≤ i → rank (nth i xs) ≤ 0
unfolding nth
nth-length i [] h = omega arith
nth-length zero (x ∷ xs) h = omega (arith, h)
nth-length (suc i) (x ∷ xs) h = nth-length i xs (omega (arith, h))

pub all_done : (xs : List Flight) → ((i : ℕ) → rank (nth i xs) ≤ 0) → in_flight xs ≡ 0
unfolding nth in_flight
all_done [] h = refl
all_done (requests ∷ xs) h = omega (arith, h 0)
all_done (polls ∷ xs) h = omega (arith, h 0)
all_done (done ∷ xs) h = omega (arith, all_done xs (λ i. h (suc i)))
