-- ===== src/Proxy/Lifecycle/Laws.antt =====
-- When `Stop` reaches the server.
mod Tests
use jwtproxy.Common.{
  ◌≡◌, ◌≢◌, refl, sym, ◌∙◌, inl, inr, Bool-cases, Bool, true, false, ◌||◌, List, [], ◌∷◌,
  if◌then◌else◌, arith,
}
use jwtproxy.Proxy.Server.{StopChannel, already_done, server_stopped, Server, stop}
use jwtproxy.Proxy.Lifecycle.{
  Pc, begins, listening, serving, returned, Life, Event, listens, marks, breaks, calls_stop, set_up,
  step, run,
}

abbrev pub is_serving : Pc → Bool
is_serving begins = false
is_serving listening = false
is_serving serving = true
is_serving returned = false

-- whether a call of `Stop` got the server's own channel
abbrev pub has_reached : List StopChannel → Bool
has_reached [] = false
has_reached (already_done ∷ cs) = has_reached cs
has_reached (server_stopped ∷ cs) = true

-- before the flag is up for the first time
abbrev pub is_early : Pc → Bool
is_early begins = true
is_early listening = true
is_early serving = false
is_early returned = false

-- The flag is up exactly while `Serve` serves, and the server was told to stop exactly if a call of
-- `Stop` got its channel, which none does before that.
IsSound : Pc → Bool → Bool → List StopChannel → Type 0
IsSound pc started stopped cs =
    (started ≡ is_serving pc) × (stopped ≡ has_reached cs) × (is_early pc ≡ true → stopped ≡ false)

Good : Life → Type 0
Good s = IsSound s.pc s.server.started s.server.stopped s.stops

step-Good :
    (pc : Pc) (started stopped : Bool) (cs : List StopChannel) (e : Event)
    → IsSound pc started stopped cs
    → Good (
        step
          (record { pc = pc; server = record { started = started; stopped = stopped }; stops = cs })
          e)
unfolding Good step stop IsSound
step-Good begins a b cs (listens true) h = h
step-Good begins a b cs (listens false) (h, k, l) = (h, k, λ e. cc)
step-Good listening a b cs (listens ok) h = h
step-Good serving a b cs (listens ok) h = h
step-Good returned a b cs (listens ok) h = h
step-Good begins a b cs marks h = h
step-Good listening a b cs marks (h, k, l) = (refl, k, λ e. cc)
step-Good serving a b cs marks h = h
step-Good returned a b cs marks h = h
step-Good begins a b cs breaks h = h
step-Good listening a b cs breaks h = h
step-Good serving a b cs breaks (h, k, l) = (refl, k, λ e. cc)
step-Good returned a b cs breaks h = h
step-Good begins true b cs calls_stop (h, k, l) = cc
step-Good listening true b cs calls_stop (h, k, l) = cc
step-Good serving true b cs calls_stop (h, k, l) = (h, refl, λ e. cc)
step-Good returned true b cs calls_stop (h, k, l) = cc
step-Good pc false b cs calls_stop h = h

run-Good : (s : Life) (es : List Event) → Good s → Good (run s es)
unfolding run Good
run-Good s [] h = h
run-Good s (e ∷ es) h =
    run-Good (step s e) es (step-Good s.pc s.server.started s.server.stopped s.stops e h)

early_stop :
    (pc : Pc) (started stopped : Bool) (cs : List StopChannel)
    → pc ≡ listening
    → IsSound pc started stopped cs
    → let s : Life = record {
      pc = pc;
      server = record { started = started; stopped = stopped };
      stops = cs;
    } in
      let s'' = step (step s calls_stop) marks in
      (s''.pc ≡ serving) × (s''.server.stopped ≡ false) × (has_reached s''.stops ≡ false)
unfolding step stop IsSound
early_stop begins a b cs e sound = cc
early_stop listening true b cs e (flag, told, early) = cc
early_stop listening false b cs e (flag, told, early) = (refl, early refl, sym told ∙ early refl)
early_stop serving a b cs e sound = cc
early_stop returned a b cs e sound = cc

-- However `Serve` and calls of `Stop` have gone on: a further call tells the server to stop and gets its
-- channel if `Serve` serves just then. If it does not, the call changes nothing and is done at once; and
-- where that is between the listener and the flag, `Serve` then serves with a server that no call of
-- `Stop` has told anything.
pub stop_reaches_serving :
    (es : List Event)
    → let s = run set_up es in
      let s' = step s calls_stop in
      (is_serving s.pc ≡ true → (s'.stops ≡ server_stopped ∷ s.stops) × (s'.server.stopped ≡ true))
      × (is_serving s.pc ≡ false → (s'.stops ≡ already_done ∷ s.stops) × (s'.server ≡ s.server))
      × (s.pc ≡ listening
          → ((step s' marks).pc ≡ serving)
            × ((step s' marks).server.stopped ≡ false)
            × (has_reached (step s' marks).stops ≡ false))
unfolding step stop Good IsSound
stop_reaches_serving es =
    let s = run set_up es in
    let (flag, told, early) = run-Good set_up es (refl, refl, λ e. refl) in
    (
      λ e. rw (flag ∙ e, step, stop) (refl, refl),
      λ e. rw (flag ∙ e, step, stop) (refl, refl),
      λ e. early_stop s.pc s.server.started s.server.stopped s.stops e (flag, told, early),
    )
