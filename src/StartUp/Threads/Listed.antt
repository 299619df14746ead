-- ===== src/StartUp/Threads/Listed.antt =====
-- The group lists what the goroutines have added, as long as main waits.
use jwtproxy.Common.{
  ℕ, ◌==◌, ==_iff, ◌≡◌, ◌∙◌, inl, inr, Bool-cases, Bool, true, false, ◌||◌, List, [], ◌∷◌, ◌++◌,
  arith,
}
use jwtproxy.Stop.Waiter.{contains}
use jwtproxy.StartUp.Start.{Cause}
use jwtproxy.StartUp.Threads.{
  Stage, makes, sends, failed, serves, added, Main, waits, stopped, Threads, put, stop_group,
}

-- what is stopped with the group
abbrev pub in_group : Stage → Bool
in_group makes = false
in_group (sends holds e) = holds
in_group (failed holds) = holds
in_group serves = false
in_group added = true

-- While main waits, the group has exactly what the goroutines have added.
unfoldable pub IsListed : Main → List ℕ → (ℕ → Stage) → Type 0
IsListed waits group stages = (j : ℕ) → contains j group ≡ in_group (stages j)
IsListed (stopped c taken) group stages = Unit

unfoldable pub Good : Threads → Type 0
Good s = IsListed s.main s.group s.stages

contains-append : (j i : ℕ) (xs : List ℕ) → contains j (xs ++ i ∷ []) ≡ (contains j xs || i == j)
unfolding contains
contains-append j i [] = ground arith
contains-append j i (x ∷ xs) = ground (arith, contains-append j i xs)

pub put-IsListed :
    (main : Main) (group : List ℕ) (stages : ℕ → Stage) (i : ℕ) (stage : Stage)
    → IsListed main group stages
    → in_group (stages i) ≡ in_group stage
    → IsListed main group (put i stage stages)
unfolding IsListed put
put-IsListed waits group stages i stage h same = λ j. elim (Bool-cases (i == j)) [
  | inl e ↦ let there : i ≡ j = (==_iff i j).0 e in h j ∙ rw (e, put) (rw there at same)
  | inr e ↦ rw (e, put) (h j)
]
put-IsListed (stopped c taken) group stages i stage h same = tt

pub add-IsListed :
    (main : Main) (group : List ℕ) (stages : ℕ → Stage) (i : ℕ) (stage : Stage)
    → IsListed main group stages
    → in_group (stages i) ≡ false
    → in_group stage ≡ true
    → IsListed main (group ++ i ∷ []) (put i stage stages)
unfolding IsListed put
add-IsListed waits group stages i stage h out in_ = λ j.
    contains-append j i group ∙ elim (Bool-cases (i == j)) [
      | inl e ↦ rw (e, put) (ground (arith, h j))
      | inr e ↦ rw (e, put) (ground (arith, h j))
    ]
add-IsListed (stopped c taken) group stages i stage h out in_ = tt

pub stop_group-Good : (c : Cause) (s : Threads) → Good s → Good (stop_group c s)
unfolding Good stop_group IsListed
stop_group-Good c s h = stops s.main s.group s.stages h
  where
    stops :
        (m : Main) (g : List ℕ) (st : ℕ → Stage)
        → IsListed m g st
        → Good (stop_group c (record { stages = st; group = g; main = m }))
    stops waits g st h = tt
    stops (stopped d taken) g st h = tt
