-- ===== src/PrivateKey/Registered.antt =====
-- The loop of jwt/privatekey/autogenerated/autogenerated.go with the key registry's client as its manager:
-- the publisher's answers are those of `PublishPublicKey` of jwt/keyserver/keyregistry/keyregistry.go.
pub mod Laws
mod Tests
use jwtproxy.Common.{ℕ, Option, none, some, List, [], ◌∷◌}
use jwtproxy.Time.{Clock}
use jwtproxy.Jwt.Library.{Jose}
use jwtproxy.Jwt.Sign.{Entropy}
use jwtproxy.KeyServer.PublishResult.{Outcome, panicked, blocked, done, receive}
use jwtproxy.KeyRegistry.{Client, NetLib, Do}
use jwtproxy.KeyRegistry.Publish
use jwtproxy.KeyRegistry.Publish.{KeyPolicy, Choice}
use jwtproxy.KeyRegistry.Publish.Laws.{published}
use jwtproxy.PrivateKey.Rotation.{
  Generated, Loop, Progress, Event, stops, rotates, receives, answers, advance,
}
use jwtproxy.PrivateKey.Rotation.Progress.{runs, ended, fatal, crashed}

-- What a turn is for the loop.
pub data TurnEffect (K : Type 0) : Type 0 where
  nothing : TurnEffect K
  event : Event K → TurnEffect K
  panics : TurnEffect K

-- What the publishing goroutine has come to, as an answer of the publisher.
unfoldable pub set_outcome : {K : Type 0} → Outcome → TurnEffect K
set_outcome panicked = panics
set_outcome blocked = nothing
set_outcome (done pr) = elim (receive pr).0 [ none ↦ nothing | some v ↦ event (answers v) ]

unfoldable pub publisher_answer : {K : Type 0} → Publish.Progress → TurnEffect K
publisher_answer Publish.crashed = panics
publisher_answer (Publish.polling pr) = nothing
publisher_answer (Publish.finished o) = set_outcome o

-- With the client, the part of the key that is public, and what the goroutine meets: its policy, the
-- choices of its polling loop, the clock and the source of random numbers, and the network.
module _ (jose : Jose) (lib : NetLib jose.PublicKey) {N : Type 0} (http_do : Do N) (clock : Clock)
    {S : Type 0} (int63 : S → ℕ × S) (krc : Client)
    (new_public_key : jose.PrivateKey → jose.PublicKey) where
  pub data Turn : Type 0 where
    loops : Event jose.PrivateKey → Turn
    publishes : KeyPolicy → List Choice → Entropy clock S → N → Turn

  -- The key that signs the publication: the active one, or the new one itself.
  unfoldable pub signing_key : Option jose.PrivateKey → jose.PrivateKey → jose.PrivateKey
  signing_key none pending = pending
  signing_key (some active) pending = active

  -- A turn of the publisher answers for the pending key, if there is one.
  unfoldable pub publish_pending :
      Loop jose.PrivateKey
      → KeyPolicy
      → List Choice
      → Entropy clock S
      → N
      → TurnEffect jose.PrivateKey
  publish_pending s policy cs w n = elim s.keys.pending [
    | none ↦ nothing
    | some k ↦ publisher_answer (
        published jose lib http_do clock int63 krc (new_public_key k) policy
          (signing_key s.keys.active k) cs w n)
  ]

  -- An answer that no publication gives does not happen.
  unfoldable pub effect : Progress jose.PrivateKey → Turn → TurnEffect jose.PrivateKey
  effect (runs s) (loops stops) = event stops
  effect (runs s) (loops (rotates g)) = event (rotates g)
  effect (runs s) (loops receives) = event receives
  effect (runs s) (loops (answers v)) = nothing
  effect (runs s) (publishes policy cs w n) = publish_pending s policy cs w n
  effect (ended s) t = nothing
  effect (fatal e) t = nothing
  effect crashed t = nothing

  unfoldable pub take_turn : Progress jose.PrivateKey → Turn → Progress jose.PrivateKey
  take_turn p t = elim (effect p t) [
    | nothing ↦ p
    | event e ↦ advance jose.private_key_id p e
    | panics ↦ crashed
  ]

  unfoldable pub run_turns : Progress jose.PrivateKey → List Turn → Progress jose.PrivateKey
  run_turns p [] = p
  run_turns p (t ∷ ts) = run_turns (take_turn p t) ts
