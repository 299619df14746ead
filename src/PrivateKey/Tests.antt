-- ===== src/PrivateKey/Tests.antt =====
-- The rotation of keys on concrete events.
use jwtproxy.Common.{◌⊎◌, ℕ, ◌≡◌, ◌≢◌, refl, false, none, some, List, [], ◌∷◌, Bytes, codes}
use jwtproxy.Common.Result.{ok, message, public_key_not_found}
use jwtproxy.KeyServer.PublishResult.{new_publish_result, set_result, cancel, receive}
use jwtproxy.PrivateKey.{uses, get_private_key, check_stored, generates}
use jwtproxy.PrivateKey.Rotation.{
  Loop, Event, makes, no_key, runs, crashed, rotates, receives, answers, step, run, attempt_publish,
  logger_panics, success_panics,
}
use jwtproxy.PrivateKey.Provider.{start}
use jwtproxy.PrivateKey.Origin.{IsMade}
use jwtproxy.PrivateKey.Started.{started_never_crashes}
use jwtproxy.PrivateKey.Laws.{run_keeps_key}
use jwtproxy.PrivateKey.Laws.Phase.{idle}

abbrev pub key_id : ℕ → Bytes
key_id k = codes "0123456789"

-- The stored key 1 was verified.
abbrev pub begin : Loop ℕ
begin = record {
  keys = record { active = some 1; pending = none };
  publication_result = new_publish_result;
  in_flight = false;
  revoked = [];
  saved = [];
}

-- Key 2 is made but not approved in time, key 3 is published.
abbrev pub events : List (Event ℕ)
events = rotates (makes 2) ∷ rotates (makes 3) ∷ receives ∷ answers none ∷ receives ∷ []

abbrev pub end : Loop ℕ
end = record {
  keys = record { active = some 3; pending = none };
  publication_result = new_publish_result;
  in_flight = false;
  revoked = 2 ∷ [];
  saved = 3 ∷ [];
}

rotated : run key_id (runs begin) events ≡ runs end
unfolding run step attempt_publish logger_panics success_panics set_result cancel receive
rotated = refl

-- Generation that fails is not noticed until its nil key is used.
no_key_crashes : run key_id (runs begin) (rotates no_key ∷ []) ≡ crashed
unfolding run step attempt_publish logger_panics cancel
no_key_crashes = refl

not_found : check_stored {PrivateKey = ℕ} (ok 1) (λ k. some public_key_not_found) ≡ generates
unfolding check_stored
not_found = refl

-- An error on the way to the registry is as good as "not found".
unreachable :
    check_stored {PrivateKey = ℕ} (ok 1) (λ k. some (message (codes "connection refused")))
    ≡ generates
unfolding check_stored
unreachable = refl

had : get_private_key begin.keys ≡ ok 1
unfolding get_private_key
had = refl

run_keeps_key_example :
    (k : ℕ) × (get_private_key end.keys ≡ ok k)
    × ((k ≡ 1) ⊎ (begin.keys.pending ≡ some k) ⊎ IsMade k events)
run_keeps_key_example =
    run_keeps_key key_id (λ k. refl) begin end events 1 (idle refl refl)
      (tt, (tt, (tt, (tt, (tt, tt))))) had rotated

started_never_crashes_example : run key_id (start key_id (uses 1) (makes 2)) events ≢ crashed
started_never_crashes_example =
    started_never_crashes key_id (λ k. refl) (uses 1) (makes 2) events
      (tt, (tt, (tt, (tt, (tt, (tt, tt))))))
