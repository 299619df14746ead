-- ===== src/Proxy/Lifecycle/Laws/Tests.antt =====
-- `Stop` between the listener and the flag, and again while the proxy serves.
use jwtproxy.Common.{◌≡◌, refl, true, false, List, [], ◌∷◌}
use jwtproxy.Proxy.Server.{already_done, server_stopped, stop}
use jwtproxy.Proxy.Lifecycle.{
  Event, listens, marks, breaks, calls_stop, listening, serving, returned, set_up, step, run,
}
use jwtproxy.Proxy.Lifecycle.Laws.{is_serving, has_reached, stop_reaches_serving}

abbrev events : List Event
events = listens true ∷ calls_stop ∷ []

stop_reaches_serving_example :
    let s = run set_up events in
    let s' = step s calls_stop in
    (is_serving s.pc ≡ true → (s'.stops ≡ server_stopped ∷ s.stops) × (s'.server.stopped ≡ true))
    × (is_serving s.pc ≡ false → (s'.stops ≡ already_done ∷ s.stops) × (s'.server ≡ s.server))
    × (s.pc ≡ listening
        → ((step s' marks).pc ≡ serving)
          × ((step s' marks).server.stopped ≡ false)
          × (has_reached (step s' marks).stops ≡ false))
stop_reaches_serving_example = stop_reaches_serving events

-- The first call comes too early, and the second reaches the server.
whole : run set_up (listens true ∷ calls_stop ∷ marks ∷ calls_stop ∷ breaks ∷ []) ≡ record {
  pc = returned;
  server = record { started = false; stopped = true };
  stops = server_stopped ∷ already_done ∷ [];
}
unfolding run step stop
whole = refl
