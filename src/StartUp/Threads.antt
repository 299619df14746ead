-- ===== src/StartUp/Threads.antt =====
-- The goroutines that `RunProxies` of jwtproxy.go starts, beside `run` of cmd/jwtproxy/main.go: each makes
-- its proxy and adds what stops it to the group, and main stops the group at a signal or an error.
pub mod Listed
pub mod Laws
use jwtproxy.Common.{ℕ, ◌==◌, Bool, true, false, List, [], ◌∷◌, ◌++◌, if◌then◌else◌}
use jwtproxy.Common.Result.{Error}
use jwtproxy.StartUp.Start.{Cause, shutdown, aborted}

-- Where `StartForwardProxy` or `StartReverseProxy` is. An error is yet to be received from the abort
-- channel, or was; `holds` tells whether the handler's component was made and is in the group.
pub data Stage : Type 0 where
  makes : Stage
  sends : Bool → Error → Stage
  failed : Bool → Stage
  serves : Stage
  added : Stage

-- What the constructors of the handler and of the proxy come to.
pub data Outcome : Type 0 where
  no_handler : Error → Outcome
  no_proxy : Error → Outcome
  proxy : Outcome

-- Main waits, or has stopped the group with these stop functions in it.
pub data Main : Type 0 where
  waits : Main
  stopped : Cause → List ℕ → Main

-- The goroutines and what they add to the group have the numbers of their configurations.
pub record Threads : Type 0 where
  pub stages : ℕ → Stage
  pub group : List ℕ
  pub main : Main

pub data Event : Type 0 where
  -- the constructors return
  returns : ℕ → Outcome → Event
  -- `stopper.AddFunc`, after startProxy
  adds : ℕ → Event
  -- main receives this goroutine's error
  aborts : ℕ → Event
  -- main receives the error with which the `Serve` of this goroutine's proxy returns
  serve_aborts : ℕ → Error → Event
  -- main receives a signal
  signals : Event

abbrev pub started : Threads
started = record { stages = λ i. makes; group = []; main = waits }

unfoldable pub put : ℕ → Stage → (ℕ → Stage) → ℕ → Stage
put i stage stages j = if i == j then stage else stages j

-- `stopper.Stop` takes what is in the group, and leaves it empty.
unfoldable pub stop_group : Cause → Threads → Threads
stop_group cause s = elim s.main [
  | waits ↦ record s { group = []; main = stopped cause s.group }
  | stopped c taken ↦ s
]

-- Main receives an error only while it waits.
unfoldable pub receive_abort : ℕ → Bool → Error → Threads → Threads
receive_abort i holds e s = elim s.main [
  | waits ↦ stop_group (aborted e) (record s { stages = put i (failed holds) s.stages })
  | stopped c taken ↦ s
]

unfoldable pub step : Threads → Event → Threads
step s (returns i outcome) = elim (s.stages i) [
  | makes ↦ elim outcome [
    | no_handler e ↦ record s { stages = put i (sends false e) s.stages }
    | no_proxy e ↦ record s { stages = put i (sends true e) s.stages; group = s.group ++ i ∷ [] }
    | proxy ↦ record s { stages = put i serves s.stages }
  ]
  | sends holds e ↦ s
  | failed holds ↦ s
  | serves ↦ s
  | added ↦ s
]
step s (adds i) = elim (s.stages i) [
  | makes ↦ s
  | sends holds e ↦ s
  | failed holds ↦ s
  | serves ↦ record s { stages = put i added s.stages; group = s.group ++ i ∷ [] }
  | added ↦ s
]
step s (aborts i) = elim (s.stages i) [
  | makes ↦ s
  | sends holds e ↦ receive_abort i holds e s
  | failed holds ↦ s
  | serves ↦ s
  | added ↦ s
]
step s (serve_aborts i e) = elim (s.stages i) [
  | makes ↦ s
  | sends holds e' ↦ s
  | failed holds ↦ s
  | serves ↦ stop_group (aborted e) s
  | added ↦ stop_group (aborted e) s
]
step s signals = stop_group shutdown s

unfoldable pub run : Threads → List Event → Threads
run s [] = s
run s (e ∷ es) = run (step s e) es
