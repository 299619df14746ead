-- ===== src/PrivateKey/Stopping/Tests.antt =====
-- `Stop` while key 2 is pending, and the race of `Stop` with the ticker.
use jwtproxy.Common.{ℕ, ◌≡◌, refl, true, some, List, [], ◌∷◌}
use jwtproxy.KeyServer.PublishResult.{new_publish_result, cancel}
use jwtproxy.PrivateKey.Rotation
use jwtproxy.PrivateKey.Rotation.{Loop, makes, stops, rotates, attempt_publish, logger_panics}
use jwtproxy.PrivateKey.Rotation.Progress.{runs, ended}
use jwtproxy.PrivateKey.Tests.{key_id, begin}
use jwtproxy.PrivateKey.Stopping.{
  not_called, returned, Event, loop, stop_called, looks_at_pending, loop_case, revoke_pending, step,
  run,
}

-- The loop returns before `Stop` has the lock.
abbrev events : List (Event ℕ)
events = stop_called ∷ loop stops ∷ looks_at_pending ∷ []

abbrev end : Loop ℕ
end = record begin {
  keys = record { active = some 1; pending = some 2 };
  publication_result = record new_publish_result { canceled = true };
  in_flight = true;
  revoked = 2 ∷ [];
}

stopped :
    run key_id
      (step key_id (record { progress = runs begin; pc = not_called }) (loop (rotates (makes 2))))
      events
    ≡ record { progress = ended end; pc = returned }
unfolding run step loop_case revoke_pending Rotation.step attempt_publish logger_panics cancel
stopped = refl

-- If the loop takes the case of the ticker after `Stop` has looked at the pending key, the key that it
-- makes is left behind.
left_behind :
    run key_id
      (record { progress = runs begin; pc = not_called })
      (stop_called ∷ looks_at_pending ∷ loop (rotates (makes 2)) ∷ loop stops ∷ [])
    ≡ record { progress = ended (record end { revoked = [] }); pc = returned }
unfolding run step loop_case revoke_pending Rotation.step attempt_publish logger_panics cancel
left_behind = refl
