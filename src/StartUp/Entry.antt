-- ===== src/StartUp/Entry.antt =====
-- `main` of cmd/jwtproxy/main.go: flags, configuration, log level, and then `run`. What logrus does with
-- a level and what the package flag reads from the arguments are parameters.
mod Tests
use jwtproxy.Common.{◌++◌, Option, none, some, List, [], ◌∷◌, Bytes, codes}
use jwtproxy.Common.Result.{Result, ok, err, text}
use jwtproxy.Config.{Config, load}
use jwtproxy.StartUp.Start.{Cause, RunStep, main_run}

pub record Flags : Type 0 where
  pub config_path : Bytes
  pub log_level : Bytes

abbrev default_flags : Flags
default_flags = record { config_path = []; log_level = codes "info" }

-- `Fatalf` logs its text and ends the program.
pub data MainStep (Level : Type 0) : Type 0 where
  prints_usage : MainStep Level
  fatal : Bytes → MainStep Level
  sets_level : Level → MainStep Level
  runs : RunStep → MainStep Level

unfoldable pub run_steps : {Level : Type 0} → List RunStep → List (MainStep Level)
run_steps [] = []
run_steps (s ∷ steps) = runs s ∷ run_steps steps

-- With `flag.ExitOnError`, arguments that the package flag rejects end the program: `parse_flags` is
-- none then. `cause` is what ends the waiting of `run`.
module _ {Level : Type 0} (parse_flags : Flags → List Bytes → Option Flags)
    (open_and_read : Bytes → Result Bytes) (unmarshal : Bytes → Config → Result Config)
    (parse_level : Bytes → Result Level) where
  unfoldable pub main_loaded : Result Config → Bytes → Cause → List (MainStep Level)
  main_loaded (err e) log_level cause =
      prints_usage ∷ fatal (codes "Failed to load configuration: " ++ text e) ∷ []
  main_loaded (ok config) log_level cause = elim (parse_level log_level) [
    | err e ↦ fatal (codes "Failed to parse the log level: " ++ text e) ∷ []
    | ok level ↦ sets_level level ∷ run_steps (main_run config cause)
  ]

  unfoldable pub main : List Bytes → Cause → List (MainStep Level)
  main args cause = elim (parse_flags default_flags args) [
    | none ↦ []
    | some flags ↦
        main_loaded (load open_and_read unmarshal flags.config_path) flags.log_level cause
  ]
