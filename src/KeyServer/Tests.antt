-- ===== src/KeyServer/Tests.antt =====
-- The result of a publication that failed.
use jwtproxy.Common.{◌≡◌, refl, true, false, none, some, codes}
use jwtproxy.Common.Result.{message}
use jwtproxy.KeyServer.PublishResult.{
  PublishResult, done, panicked, new_publish_result, set_result, receive, receives,
  set_result-receive,
}

abbrev failed : PublishResult
failed = record {
  error_or_nil = some (some (message (codes "Shutting down")));
  closed = true;
  canceled = false;
}

set_failed : set_result (some (message (codes "Shutting down"))) new_publish_result ≡ done failed
unfolding set_result
set_failed = refl

set_result-receive_example :
    ((receive failed).0 ≡ some (some (message (codes "Shutting down"))))
    × ((receive (receives 3 failed)).0 ≡ some none)
    × (set_result none (receives 2 failed) ≡ panicked)
set_result-receive_example =
    set_result-receive (some (message (codes "Shutting down"))) none failed 2 set_failed
