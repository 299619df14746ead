-- ===== src/StartUp/Entry/Tests.antt =====
-- Starts without a flag, with a file that cannot be read, and with an unknown level.
use jwtproxy.Common.{ℕ, ◌≡◌, refl, Option, none, some, List, [], ◌∷◌, Bytes, codes, bytes_eq}
use jwtproxy.Common.Result.{Result, ok, err, foreign, message, text}
use jwtproxy.Config.{Config, default_config, load}
use jwtproxy.StartUp.{is_nothing_enabled, verifier_enabled, start_reverse_proxies, run_proxies}
use jwtproxy.StartUp.Started.{forward_proxy}
use jwtproxy.StartUp.Start.{
  shutdown, starts, waits_for, stops_group, resets_signals, waits_stopped, main_run,
}
use jwtproxy.StartUp.Entry.{
  Flags, prints_usage, fatal, sets_level, runs, run_steps, main_loaded, main,
}

-- the one argument is the path, a second the level
parse_flags : Flags → List Bytes → Option Flags
parse_flags flags [] = some flags
parse_flags flags (path ∷ []) = some (record flags { config_path = path })
parse_flags flags (path ∷ level ∷ []) =
    some (record flags { config_path = path; log_level = level })
parse_flags flags (path ∷ level ∷ more ∷ rest) = none

unreadable : Bytes → Result Bytes
unreadable path = err (foreign (codes "no such file"))

keep : Bytes → Config → Result Config
keep d config = ok config

-- the level is the first character
parse_level : Bytes → Result ℕ
parse_level [] = err (message (codes "not a valid logrus Level"))
parse_level (c ∷ s) = ok c

without_flags :
    main parse_flags unreadable keep parse_level [] shutdown
    ≡ sets_level 105
      ∷ runs (starts (forward_proxy default_config.signer_proxy ∷ []))
      ∷ runs (waits_for shutdown)
      ∷ runs stops_group
      ∷ runs resets_signals
      ∷ runs waits_stopped
      ∷ []
unfolding main main_loaded run_steps main_run load parse_flags bytes_eq parse_level
    is_nothing_enabled verifier_enabled run_proxies start_reverse_proxies
without_flags = refl

without_file :
    main parse_flags unreadable keep parse_level (codes "x" ∷ []) shutdown
    ≡ prints_usage ∷ fatal (codes "Failed to load configuration: no such file") ∷ []
unfolding main main_loaded load parse_flags bytes_eq unreadable text
without_file = refl

without_level :
    main parse_flags unreadable keep parse_level ([] ∷ [] ∷ []) shutdown
    ≡ fatal (codes "Failed to parse the log level: not a valid logrus Level") ∷ []
unfolding main main_loaded load parse_flags bytes_eq parse_level text
without_level = refl
