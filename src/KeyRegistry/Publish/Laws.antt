-- ===== src/KeyRegistry/Publish/Laws.antt =====
-- How a publication is_end.
use jwtproxy.Common.{
  ℕ, ◌≡◌, ◌⊎◌, ◌∙◌, refl, inl, inr, Bool-cases, Option-cases, Bool, codes, any, true, false, ◌||◌,
  ◌==◌, Option, none, some, List, [], ◌∷◌, Bytes, arith,
}
use jwtproxy.Common.Result.{Error, ok, err, Result-cases}
use jwtproxy.Http.{Url, Response, http_ok, http_accepted, http_conflict}
use jwtproxy.Time.{Clock}
use jwtproxy.Jwt.Library.{Jose}
use jwtproxy.Jwt.Sign.{Entropy}
use jwtproxy.KeyServer.PublishResult.{Outcome, done, set_result, new_publish_result}
use jwtproxy.KeyRegistry.{Client, NetLib, Do, key_url, sign_and_do, prepare_request}
use jwtproxy.KeyRegistry.Publish.{
  check_published_error, publish_server_error, KeyPolicy, publish_public_key, Choice, ticks,
  cancels, stops, Progress, crashed, polling, finished, check_status, poll, monitor,
  handle_response, publish_url, is_short,
}

-- the outcome of a result that is set once
abbrev pub set_to : Option Error → Outcome
set_to v = done (record { error_or_nil = some v; closed = true; canceled = false })

-- The loop is still polling with nothing set, or the result was set exactly once.
abbrev pub IsOnce : Progress → Type 0
IsOnce p = (p ≡ polling new_publish_result) ⊎ (v : Option Error) × (p ≡ finished (set_to v))

check_status_cases :
    (status : ℕ)
    → (check_status status new_publish_result ≡ none)
      ⊎ (v : Option Error) × (check_status status new_publish_result ≡ some (set_to v))
unfolding check_status set_result
check_status_cases status = elim (Bool-cases (status == http_ok)) [
  | inl e ↦ inr (none, ground arith)
  | inr e ↦ elim (Bool-cases (status == http_conflict)) [
    | inl f ↦ inl (ground arith)
    | inr f ↦ inr (some (check_published_error status), ground arith)
  ]
]

module _ (jose : Jose) (lib : NetLib jose.PublicKey) {N : Type 0} (http_do : Do N) where
  poll_cases :
      (url : Url) (n : N)
      → ((poll jose lib http_do url new_publish_result n).0 ≡ none)
        ⊎ (v : Option Error) × ((poll jose lib http_do url new_publish_result n).0
            ≡ some (set_to v))
  unfolding poll set_result
  poll_cases url n = elim (Result-cases (prepare_request jose lib (codes "GET") url [])) [
    | inr (x, e) ↦ inr (some x, rw (e, poll) refl)
    | inl (req, e) ↦ elim (Result-cases (http_do req n).0) [
      | inr (x, f) ↦ inr (some x, rw (e, f, poll) refl)
      | inl (resp, f) ↦ elim (check_status_cases resp.status) [
        | inl g ↦ inl (rw (e, f, poll) g)
        | inr (v, g) ↦ inr (v, rw (e, f, poll) g)
      ]
    ]
  ]

  monitor_cases :
      (url : Url) (cs : List Choice) (n : N)
      → IsOnce (monitor jose lib http_do url cs new_publish_result n).0
  unfolding monitor set_result
  monitor_cases url [] n = inl refl
  monitor_cases url (cancels ∷ cs) n = inr (_, refl)
  monitor_cases url (stops ∷ cs) n = inr (_, refl)
  monitor_cases url (ticks ∷ cs) n = elim (poll_cases url n) [
    | inr (v, e) ↦ inr (v, rw (e, monitor) refl)
    | inl e ↦ elim (monitor_cases url cs (poll jose lib http_do url new_publish_result n).1) [
      | inl f ↦ inl (rw (e, f, monitor) refl)
      | inr (v, f) ↦ inr (v, rw (e, f, monitor) refl)
    ]
  ]

  -- a round in which the loop is canceled or the client is stopping
  abbrev pub is_end : Choice → Bool
  is_end ticks = false
  is_end cancels = true
  is_end stops = true

  monitor_ends :
      (url : Url) (cs : List Choice) (n : N)
      → any is_end cs ≡ true
      → (v : Option Error) × ((monitor jose lib http_do url cs new_publish_result n).0
          ≡ finished (set_to v))
  unfolding monitor set_result
  monitor_ends url [] n h = ground arith
  monitor_ends url (cancels ∷ cs) n h = (_, refl)
  monitor_ends url (stops ∷ cs) n h = (_, refl)
  monitor_ends url (ticks ∷ cs) n h = elim (poll_cases url n) [
    | inr (v, e) ↦ (v, rw (e, monitor) refl)
    | inl e ↦
        let (v, f) = monitor_ends url cs (poll jose lib http_do url new_publish_result n).1 h in
        (v, rw (e, f, monitor) refl)
  ]

  -- crashed, set at once, or decided by the loop
  abbrev Ending : List Choice → Progress → Type 0
  Ending cs p =
      (p ≡ crashed)
      ⊎ ((v : Option Error) × (p ≡ finished (set_to v)))
      ⊎ (url : Url) × (n : N) × (p ≡ (monitor jose lib http_do url cs new_publish_result n).0)

  response-Ending :
      (resp : Response) (url : Url) (key_id signing_key_id : Bytes) (cs : List Choice) (n : N)
      → Ending cs
          (handle_response jose lib http_do resp url key_id signing_key_id cs new_publish_result
            n).0
  unfolding handle_response set_result
  response-Ending resp url key_id signing_key_id cs n = elim (Bool-cases (resp.status == http_ok)) [
    | inl e ↦ inr (inl (none, rw (e, handle_response) refl))
    | inr e ↦ elim (Bool-cases (resp.status == http_accepted)) [
      | inr f ↦ inr (inl (some (publish_server_error resp.status), rw (e, f, handle_response) refl))
      | inl f ↦ elim (Bool-cases (is_short key_id || is_short signing_key_id)) [
        | inl g ↦ inl (rw (e, f, g, handle_response) refl)
        | inr g ↦ inr (inr (url, n, rw (e, f, g, handle_response) refl))
      ]
    ]
  ]

  module _ (clock : Clock) {S : Type 0} (int63 : S → ℕ × S) (krc : Client) (key : jose.PublicKey)
      (policy : KeyPolicy) (signing_key : jose.PrivateKey) (cs : List Choice) (w : Entropy clock S)
      (n : N) where
    -- the goroutine's progress after the rounds cs, from a new result
    abbrev pub published : Progress
    published =
        (publish_public_key jose lib http_do clock int63 krc key policy signing_key cs
          new_publish_result (w, n)).0

    publish-Ending : Ending cs published
    unfolding publish_public_key set_result
    publish-Ending = elim (Result-cases (lib.marshal_key key)) [
      | inr (x, e) ↦ inr (inl (some x, rw (e, published, publish_public_key) refl))
      | inl (body, e) ↦
          elim (Option-cases
            (key_url jose lib krc krc.signer_params.issuer (jose.public_key_id key))) [
              | inl f ↦ inl (rw (e, f, published, publish_public_key) refl)
              | inr (url, f) ↦
                  elim (Option-cases (
                    sign_and_do jose lib http_do clock int63 krc (codes "PUT")
                      (publish_url jose lib http_do policy url) body signing_key (w, n))) [
                        | inl g ↦ inl (rw (e, f, g, published, publish_public_key) refl)
                        | inr ((err x, v), g) ↦
                            inr (inl (some x, rw (e, f, g, published, publish_public_key) refl))
                        | inr ((ok resp, v), g) ↦
                            rw (e, f, g, published, publish_public_key)
                              (response-Ending resp url (jose.public_key_id key)
                                (jose.private_key_id signing_key) cs v.1)
                      ]
            ]
    ]

    -- Whatever the registry answers and however long the loop runs: the goroutine dies of a panic of
    -- its own, or is polling with no result set, or has set the result exactly once, without
    -- blocking and without setting it or closing its channel twice.
    pub publish-IsOnce : (published ≡ crashed) ⊎ IsOnce published
    publish-IsOnce = elim publish-Ending [
      | inl e ↦ inl e
      | inr (inl (v, e)) ↦ inr (inr (v, e))
      | inr (inr (url, m, e)) ↦ inr (rw e (monitor_cases url cs m))
    ]

    -- Once a round takes the case of a cancellation or of the client's stop, the goroutine is through: it
    -- has set the result, unless it died of a panic of its own.
    pub publish_ends :
        any is_end cs ≡ true
        → (published ≡ crashed) ⊎ (v : Option Error) × (published ≡ finished (set_to v))
    publish_ends h = elim publish-Ending [
      | inl e ↦ inl e
      | inr (inl (v, e)) ↦ inr (v, e)
      | inr (inr (url, m, e)) ↦ let (v, f) = monitor_ends url cs m h in inr (v, e ∙ f)
    ]

    -- A key whose id, or whose signing key's id, has fewer than ten bytes
    -- makes the goroutine panic as soon as the registry answers that the key needs approval.
    short_id_crashes :
        (url : Url) (body : Bytes) (resp : Response) (v : Entropy clock S × N)
        → lib.marshal_key key ≡ ok body
        → key_url jose lib krc krc.signer_params.issuer (jose.public_key_id key) ≡ some url
        → sign_and_do jose lib http_do clock int63 krc
            (codes "PUT")
            (publish_url jose lib http_do policy url)
            body
            signing_key
            (w, n)
          ≡ some (ok resp, v)
        → resp.status ≡ http_accepted
        → (is_short (jose.public_key_id key) || is_short (jose.private_key_id signing_key)) ≡ true
        → published ≡ crashed
    unfolding publish_public_key handle_response
    short_id_crashes url body resp v e f g accepted short =
        rw (e, f, g, published, publish_public_key) (ground (arith, accepted, short))
