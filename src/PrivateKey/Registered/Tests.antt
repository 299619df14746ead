-- ===== src/PrivateKey/Registered/Tests.antt =====
-- A new key that the registry accepts, has wait for one poll, and then approves.
use jwtproxy.Common.{ℕ, ◌==◌, false, none, some, List, [], ◌∷◌, if◌then◌else◌}
use jwtproxy.Common.Result.{ok}
use jwtproxy.Http.{http_ok, http_accepted, http_conflict}
use jwtproxy.Time.Ticking.{ticking}
use jwtproxy.KeyServer.PublishResult.{new_publish_result}
use jwtproxy.KeyRegistry.{Do}
use jwtproxy.KeyRegistry.Publish.{ticks}
use jwtproxy.KeyRegistry.Tests.{lib, krc, counting, entropy, policy, long_jose}
use jwtproxy.PrivateKey.{Stored, generates}
use jwtproxy.PrivateKey.Rotation.{Loop, receives}
use jwtproxy.PrivateKey.Registered.{Turn, loops, publishes}

abbrev next : ℕ → ℕ
next n = if n == http_accepted then http_conflict else http_ok

abbrev registry : Do ℕ
registry r n = (ok (record { status = n; body = [] }), next n)

abbrev public_part : long_jose.PrivateKey → long_jose.PublicKey
public_part k = tt

abbrev stored : Stored long_jose.PrivateKey
stored = generates

abbrev turns : List (Turn long_jose lib registry ticking counting krc public_part)
turns = publishes policy (ticks ∷ ticks ∷ []) entropy http_accepted ∷ loops receives ∷ []

abbrev end : Loop long_jose.PrivateKey
end = record {
  keys = record { active = some tt; pending = none };
  publication_result = new_publish_result;
  in_flight = false;
  revoked = [];
  saved = tt ∷ [];
}
