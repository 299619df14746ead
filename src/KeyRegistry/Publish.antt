-- ===== src/KeyRegistry/Publish.antt =====
-- `PublishPublicKey` of jwt/keyserver/keyregistry/keyregistry.go: the goroutine that puts a key into the
-- registry and, if the key has to be approved, polls the registry until it is.
pub mod Laws
pub mod Success
use jwtproxy.Common.{
  ℕ, zero, suc, ◌+◌, ◌/◌, Bool, ◌==◌, ◌||◌, ◌++◌, Option, none, some, List, [], ◌∷◌, Bytes, codes,
  length, ltb, if◌then◌else◌,
}
use jwtproxy.Common.Int.{ℤ, pos, negsuc}
use jwtproxy.Common.Decimal.{decimal, format_int}
use jwtproxy.Common.Result.{Error, Result, ok, err, message}
use jwtproxy.Http.{Url, Response, http_ok, http_accepted, http_conflict}
use jwtproxy.Time.{Clock, Time, Duration, unix}
use jwtproxy.Jwt.Library.{Jose}
use jwtproxy.Jwt.Sign.{Entropy}
use jwtproxy.KeyServer.PublishResult
use jwtproxy.KeyServer.PublishResult.{PublishResult, Outcome, success, set_error}
use jwtproxy.KeyRegistry.{Client, NetLib, Do, key_url, prepare_request, sign_and_do}

-- `KeyPolicy` of jwt/keyserver/keyserver.go
pub record KeyPolicy : Type 0 where
  pub expiration : Option Time
  pub rotation_policy : Option Duration

-- Which case of the `select` in the polling loop is taken in a round.
pub data Choice : Type 0 where
  ticks : Choice
  cancels : Choice
  stops : Choice

-- Where the goroutine is: still in the loop, or done with what setting the result came to, or dead
-- of a panic of its own.
pub data Progress : Type 0 where
  crashed : Progress
  polling : PublishResult → Progress
  finished : Outcome → Progress

-- `int(d.Seconds())`, rounded toward 0
abbrev pub whole_seconds : Duration → ℤ
whole_seconds (pos n) = pos (n / 1000000000)
whole_seconds (negsuc n) = elim ((n + 1) / 1000000000) [ zero ↦ pos 0 | suc m ↦ negsuc m ]

-- Lines 120 to 127: the parameters of the query, behind those that the URL has.
unfoldable pub query_params : KeyPolicy → List (Bytes × Bytes) → List (Bytes × Bytes)
query_params policy query =
    query
    ++ elim policy.expiration [
      | none ↦ []
      | some t ↦ (codes "expiration", format_int (unix t)) ∷ []
    ]
    ++ elim policy.rotation_policy [
      | none ↦ []
      | some d ↦ (codes "rotation", format_int (whole_seconds d)) ∷ []
    ]

-- `id[0:10]` panics below ten bytes.
abbrev pub is_short : Bytes → Bool
is_short id = ltb (length id) 10

abbrev pub check_published_error : ℕ → Error
check_published_error status =
    message (codes "Unexpected response code when checking approval status " ++ decimal status)

abbrev pub publish_server_error : ℕ → Error
publish_server_error status =
    message (codes "Unexpected response code when publishing key: " ++ decimal status ++ codes " ")

-- Lines 171 to 184: what a poll's status does; none goes on polling.
unfoldable pub check_status : ℕ → PublishResult → Option Outcome
check_status status pr =
    if status == http_ok
    then some (success pr)
    else if status == http_conflict
    then none
    else some (set_error (check_published_error status) pr)

module _ (jose : Jose) (lib : NetLib jose.PublicKey) {N : Type 0} (http_do : Do N) where
  open jose use {PublicKey, PrivateKey}

  -- Lines 159 to 184: one poll.
  unfoldable pub poll : Url → PublishResult → N → Option Outcome × N
  poll mon_url pr n = elim (prepare_request jose lib (codes "GET") mon_url []) [
    | err e ↦ (some (set_error e pr), n)
    | ok check_req ↦
        let (check_published, n') = http_do check_req n in
        elim check_published [
          | err e ↦ (some (set_error e pr), n')
          | ok resp ↦ (check_status resp.status pr, n')
        ]
  ]

  -- Lines 156 to 197, for the rounds of the loop that are given.
  unfoldable pub monitor : Url → List Choice → PublishResult → N → Progress × N
  monitor mon_url [] pr n = (polling pr, n)
  monitor mon_url (cancels ∷ cs) pr n =
      (finished (set_error (message (codes "Key publication monitor canceled")) pr), n)
  monitor mon_url (stops ∷ cs) pr n = (finished (set_error (message (codes "Shutting down")) pr), n)
  monitor mon_url (ticks ∷ cs) pr n =
      let (decided, n') = poll mon_url pr n in
      let rest = monitor mon_url cs pr n' in
      elim decided [ none ↦ rest | some o ↦ (finished o, n') ]

  -- Lines 136 to 206: what the answer to the PUT request leads to.
  unfoldable pub handle_response :
      Response → Url → Bytes → Bytes → List Choice → PublishResult → N → Progress × N
  handle_response resp mon_url key_id signing_key_id cs pr n =
      let watched = monitor mon_url cs pr n in
      if resp.status == http_ok
      then (finished (success pr), n)
      else if resp.status == http_accepted
      then (if is_short key_id || is_short signing_key_id then (crashed, n) else watched)
      else (finished (set_error (publish_server_error resp.status) pr), n)

  -- Lines 119 to 128.
  abbrev pub publish_url : KeyPolicy → Url → Url
  publish_url policy url = record url {
    raw_query = lib.encode (query_params policy (lib.query url));
  }

  module _ (clock : Clock) {S : Type 0} (int63 : S → ℕ × S) where
    -- The goroutine, from the start, for the rounds of the polling loop that are given.
    unfoldable pub publish_public_key :
        Client
        → PublicKey
        → KeyPolicy
        → PrivateKey
        → List Choice
        → PublishResult
        → Entropy clock S × N
        → Progress × (Entropy clock S × N)
    publish_public_key krc key policy signing_key cs pr (w, n) =
        let id = jose.public_key_id key in
        elim (lib.marshal_key key) [
          | err e ↦ (finished (set_error e pr), (w, n))
          | ok body ↦ elim (key_url jose lib krc krc.signer_params.issuer id) [
            | none ↦ (crashed, (w, n))
            | some url ↦
                elim (sign_and_do jose lib http_do clock int63 krc (codes "PUT")
                  (publish_url policy url) body signing_key (w, n)) [
                    | none ↦ (crashed, (w, n))
                    | some (err e, (w', n')) ↦ (finished (set_error e pr), (w', n'))
                    | some (ok resp, (w', n')) ↦
                        let (progress, n'') =
                          handle_response resp url id (jose.private_key_id signing_key) cs pr n' in
                        (progress, (w', n''))
                  ]
          ]
        ]
