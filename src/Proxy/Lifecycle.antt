-- ===== src/Proxy/Lifecycle.antt =====
-- `Serve` and `Stop` of proxy/proxy.go as two threads that share the flag `started` and the server.
pub mod Laws
use jwtproxy.Common.{Bool, true, false, List, [], ◌∷◌, if◌then◌else◌}
use jwtproxy.Proxy.Server.{StopChannel, Server, stop}

-- where `Serve` is
pub data Pc : Type 0 where
  begins : Pc
  listening : Pc
  serving : Pc
  returned : Pc

-- The flag with the server, where `Serve` is, and what the calls of `Stop` have returned, the last first.
pub record Life : Type 0 where
  pub pc : Pc
  pub server : Server
  pub stops : List StopChannel

pub data Event : Type 0 where
  -- net.Listen or ListenTLS returns; true if there is a listener
  listens : Bool → Event
  -- `proxy.started = true`, and the server's own Serve
  marks : Event
  -- The server's Serve returns: the server was told to stop, or it failed.
  breaks : Event
  -- somebody calls `Stop`
  calls_stop : Event

abbrev pub set_up : Life
set_up = record { pc = begins; server = record { started = false; stopped = false }; stops = [] }

unfoldable pub step : Life → Event → Life
step s (listens succeeds) = elim s.pc [
  | begins ↦ record s { pc = if succeeds then listening else returned }
  | listening ↦ s
  | serving ↦ s
  | returned ↦ s
]
step s marks = elim s.pc [
  | begins ↦ s
  | listening ↦ record s { pc = serving; server = record s.server { started = true } }
  | serving ↦ s
  | returned ↦ s
]
step s breaks = elim s.pc [
  | begins ↦ s
  | listening ↦ s
  | serving ↦ record s { pc = returned; server = record s.server { started = false } }
  | returned ↦ s
]
step s calls_stop =
    let (channel, server) = stop s.server in record s { server = server; stops = channel ∷ s.stops }

unfoldable pub run : Life → List Event → Life
run s [] = s
run s (e ∷ es) = run (step s e) es
