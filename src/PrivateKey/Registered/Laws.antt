-- ===== src/PrivateKey/Registered/Laws.antt =====
-- A key that signs was accepted by the key registry.
use jwtproxy.Common.{ℕ, ◌≡◌, ◌⊎◌, none, some, List, [], ◌∷◌, Bytes, codes}
use jwtproxy.Common.Result.{ok}
use jwtproxy.Http.{Url, Response}
use jwtproxy.Time.{Clock}
use jwtproxy.Jwt.Library.{Jose}
use jwtproxy.Jwt.Sign.{Entropy}
use jwtproxy.KeyRegistry.{Client, NetLib, Do, key_url, sign_and_do}
use jwtproxy.KeyRegistry.Publish
use jwtproxy.KeyRegistry.Publish.{KeyPolicy, publish_url}
use jwtproxy.KeyRegistry.Publish.Success.{IsAccepted}
use jwtproxy.PrivateKey.Rotation.{Progress, Event, answers}
use jwtproxy.PrivateKey.Rotation.Progress.{runs, ended, fatal, crashed}
use jwtproxy.PrivateKey.Registered.{
  TurnEffect, nothing, event, panics, Turn, loops, publishes, signing_key, effect, take_turn,
  run_turns,
}

module _ (jose : Jose) (lib : NetLib jose.PublicKey) {N : Type 0} (http_do : Do N) (clock : Clock)
    {S : Type 0} (int63 : S → ℕ × S) (krc : Client)
    (new_public_key : jose.PrivateKey → jose.PublicKey) where
  -- In a publication with this signer and policy, from this clock, source and network: the registry got
  -- the public part of the key in a signed PUT request, which it answered with status 200, or with 202
  -- and a later poll of the key's URL with 200.
  pub record IsRegistered (k signer : jose.PrivateKey) (policy : KeyPolicy)
      (before : Entropy clock S × N) : Type 0 where
    pub after : Entropy clock S × N
    pub body : Bytes
    pub url : Url
    pub resp : Response
    pub marshaled : lib.marshal_key (new_public_key k) ≡ ok body
    pub addressed :
        key_url jose lib krc krc.signer_params.issuer (jose.public_key_id (new_public_key k))
        ≡ some url
    pub sent :
        sign_and_do jose lib http_do clock int63 krc
          (codes "PUT")
          (publish_url jose lib http_do policy url)
          body
          signer
          before
        ≡ some (ok resp, after)
    pub accepted : IsAccepted jose lib http_do url resp after.1

  abbrev Turns : Type 0
  Turns = List (Turn jose lib http_do clock int63 krc new_public_key)

  -- With this turn the pending key, which is this one, is registered.
  RegistersAt :
      jose.PrivateKey
      → Progress jose.PrivateKey
      → Turn jose lib http_do clock int63 krc new_public_key
      → Type 0
  RegistersAt k (runs s) (publishes policy cs w n) =
      (s.keys.pending ≡ some k)
      × IsRegistered k (signing_key jose lib http_do clock int63 krc new_public_key s.keys.active k)
          policy (w, n)
  RegistersAt k (runs s) (loops e) = ⊥
  RegistersAt k (ended s) t = ⊥
  RegistersAt k (fatal e) t = ⊥
  RegistersAt k crashed t = ⊥

  abbrev effect_of :
      Progress jose.PrivateKey
      → Turn jose lib http_do clock int63 krc new_public_key
      → TurnEffect jose.PrivateKey
  effect_of = effect jose lib http_do clock int63 krc new_public_key

  abbrev turned :
      Progress jose.PrivateKey
      → Turn jose lib http_do clock int63 krc new_public_key
      → Progress jose.PrivateKey
  turned = take_turn jose lib http_do clock int63 krc new_public_key

  abbrev outcome : Progress jose.PrivateKey → Turns → Progress jose.PrivateKey
  outcome = run_turns jose lib http_do clock int63 krc new_public_key

  -- the events of the loop that the turns come to
  events : Progress jose.PrivateKey → Turns → List (Event jose.PrivateKey)
  events p [] = []
  events p (t ∷ ts) =
      let rest = events (turned p t) ts in
      elim (effect_of p t) [ nothing ↦ rest | event e ↦ e ∷ rest | panics ↦ [] ]

  -- Along the run, one of the turns registered this key.
  pub WasRegistered : jose.PrivateKey → Progress jose.PrivateKey → Turns → Type 0
  WasRegistered k p [] = ⊥
  WasRegistered k p (t ∷ ts) = RegistersAt k p t ⊎ WasRegistered k (turned p t) ts

  -- An answer without an error is that of a publication that the registry accepted.
  abbrev succeeds : TurnEffect jose.PrivateKey
  succeeds = event (answers none)
