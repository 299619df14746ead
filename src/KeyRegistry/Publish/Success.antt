-- ===== src/KeyRegistry/Publish/Success.antt =====
-- What a publication that succeeds had from the registry.
mod Tests
use jwtproxy.Common.{
  zero, suc, ◌<◌, ℕ, ◌≡◌, ◌⊎◌, ◌∙◌, refl, inl, inr, Bool-cases, Option-cases, codes, ◌||◌, ◌==◌,
  ==_iff, none, some, List, [], ◌∷◌, Bytes, arith,
}
use jwtproxy.Common.Result.{ok, err, Result-cases}
use jwtproxy.Http.{Url, Request, Response, http_ok, http_accepted, http_conflict}
use jwtproxy.Time.{Clock}
use jwtproxy.Jwt.Library.{Jose}
use jwtproxy.Jwt.Sign.{Entropy}
use jwtproxy.KeyServer.PublishResult.{set_result, new_publish_result}
use jwtproxy.KeyRegistry.{Client, NetLib, Do, key_url, sign_and_do, prepare_request}
use jwtproxy.KeyRegistry.Publish.{
  KeyPolicy, publish_public_key, Choice, ticks, cancels, stops, Progress, crashed, polling,
  finished, check_status, poll, monitor, handle_response, publish_url, is_short,
}
use jwtproxy.KeyRegistry.Publish.Laws.{set_to, published}

module _ (jose : Jose) (lib : NetLib jose.PublicKey) {N : Type 0} (http_do : Do N) where
  -- the network after this many polls
  unfoldable pub after_polls : Url → ℕ → N → N
  after_polls url zero n = n
  after_polls url (suc k) n = after_polls url k (poll jose lib http_do url new_publish_result n).1

  -- After some polls from this state of the network, each of which decided nothing, the next was answered
  -- with status 200.
  pub record IsApproved (url : Url) (n : N) : Type 0 where
    pub polls : ℕ
    pub req : Request
    pub resp : Response
    pub undecided :
        (j : ℕ)
        → j < polls
        → (poll jose lib http_do url new_publish_result (after_polls url j n)).0 ≡ none
    pub prepared : prepare_request jose lib (codes "GET") url [] ≡ ok req
    pub answered : (http_do req (after_polls url polls n)).0 ≡ ok resp
    pub status : resp.status ≡ http_ok

  absurd : (j : ℕ) → j < 0 → ⊥
  absurd j h = omega arith

  -- A poll that decides nothing, and then the approval.
  later-IsApproved :
      (url : Url) (n : N)
      → (poll jose lib http_do url new_publish_result n).0 ≡ none
      → IsApproved url (poll jose lib http_do url new_publish_result n).1
      → IsApproved url n
  unfolding after_polls
  later-IsApproved url n e a = record {
    polls = suc a.polls;
    undecided = waited;
    req = a.req;
    resp = a.resp;
    prepared = a.prepared;
    answered = a.answered;
    status = a.status;
  }
    where
      waited :
          (j : ℕ)
          → j < suc a.polls
          → (poll jose lib http_do url new_publish_result (after_polls url j n)).0 ≡ none
      waited zero h = e
      waited (suc j) h = a.undecided j (omega arith)

  -- A poll that decides on success.
  poll_success :
      (url : Url) (n : N)
      → (poll jose lib http_do url new_publish_result n).0 ≡ some (set_to none)
      → IsApproved url n
  unfolding poll check_status set_result after_polls
  poll_success url n h = elim (Result-cases (prepare_request jose lib (codes "GET") url [])) [
    | inr (x, e) ↦ cc (rw (e, poll) at h)
    | inl (req, e) ↦ elim (Result-cases (http_do req n).0) [
      | inr (x, f) ↦ cc (rw (e, f, poll) at h)
      | inl (resp, f) ↦ elim (Bool-cases (resp.status == http_ok)) [
        | inl g ↦ record {
          polls = 0;
          undecided = λ j h. elim (absurd j h) [ ];
          req = req;
          resp = resp;
          prepared = e;
          answered = f;
          status = (==_iff resp.status http_ok).0 g;
        }
        | inr g ↦ elim (Bool-cases (resp.status == http_conflict)) [
          | inl c ↦ cc (rw (e, f, poll, check_status, g, c) at h)
          | inr c ↦ cc (rw (e, f, poll, check_status, g, c) at h)
        ]
      ]
    ]
  ]

  monitor_success :
      (url : Url) (cs : List Choice) (n : N)
      → (monitor jose lib http_do url cs new_publish_result n).0 ≡ finished (set_to none)
      → IsApproved url n
  unfolding monitor set_result
  monitor_success url [] n h = cc
  monitor_success url (cancels ∷ cs) n h = cc
  monitor_success url (stops ∷ cs) n h = cc
  monitor_success url (ticks ∷ cs) n h =
      elim (Option-cases (poll jose lib http_do url new_publish_result n).0) [
        | inl e ↦ later-IsApproved url n e (
            monitor_success url cs (poll jose lib http_do url new_publish_result n).1
              (rw (e, monitor) at h))
        | inr (o, e) ↦
            let same : o ≡ set_to none = ground (arith, rw (e, monitor) at h) in
            poll_success url n (rw same at e)
      ]

  -- The answer to the PUT, or a poll behind it, has status 200.
  pub IsAccepted : Url → Response → N → Type 0
  IsAccepted url resp n = (resp.status ≡ http_ok) ⊎ (resp.status ≡ http_accepted) × IsApproved url n

  response_success :
      (resp : Response) (url : Url) (key_id signing_key_id : Bytes) (cs : List Choice) (n : N)
      → (handle_response jose lib http_do resp url key_id signing_key_id cs new_publish_result n).0
        ≡ finished (set_to none)
      → IsAccepted url resp n
  unfolding handle_response set_result IsAccepted
  response_success resp url key_id signing_key_id cs n h =
      elim (Bool-cases (resp.status == http_ok)) [
        | inl e ↦ inl ((==_iff resp.status http_ok).0 e)
        | inr e ↦ elim (Bool-cases (resp.status == http_accepted)) [
          | inr f ↦ cc (rw (e, f, handle_response) at h)
          | inl f ↦ elim (Bool-cases (is_short key_id || is_short signing_key_id)) [
            | inl g ↦ cc (rw (e, f, g, handle_response) at h)
            | inr g ↦ inr (
              (==_iff resp.status http_accepted).0 f,
              monitor_success url cs n (rw (e, f, g, handle_response) at h),
            )
          ]
        ]
      ]

  module _ (clock : Clock) {S : Type 0} (int63 : S → ℕ × S) (krc : Client) (key : jose.PublicKey)
      (policy : KeyPolicy) (signing_key : jose.PrivateKey) (cs : List Choice) (w : Entropy clock S)
      (n : N) where
    -- A publication that reports success has sent the key to the registry in a signed PUT request,
    -- which was answered with status 200, or with 202; and then, in the network that this request
    -- left, some polls of the key's URL decided nothing and the next was answered with 200.
    pub success-IsAccepted :
        published jose lib http_do clock int63 krc key policy signing_key cs w n
          ≡ finished (set_to none)
        → (body : Bytes) × (url : Url) × (resp : Response) × (v : Entropy clock S × N)
          × (lib.marshal_key key ≡ ok body)
          × (key_url jose lib krc krc.signer_params.issuer (jose.public_key_id key) ≡ some url)
          × (sign_and_do jose lib http_do clock int63 krc
                (codes "PUT")
                (publish_url jose lib http_do policy url)
                body
                signing_key
                (w, n)
              ≡ some (ok resp, v))
          × IsAccepted url resp v.1
    unfolding publish_public_key set_result
    success-IsAccepted h = elim (Result-cases (lib.marshal_key key)) [
      | inr (x, e) ↦ cc (rw (e, published, publish_public_key) at h)
      | inl (body, e) ↦
          elim (Option-cases
            (key_url jose lib krc krc.signer_params.issuer (jose.public_key_id key))) [
              | inl f ↦ cc (rw (e, f, published, publish_public_key) at h)
              | inr (url, f) ↦
                  elim (Option-cases (
                    sign_and_do jose lib http_do clock int63 krc (codes "PUT")
                      (publish_url jose lib http_do policy url) body signing_key (w, n))) [
                        | inl g ↦ cc (rw (e, f, g, published, publish_public_key) at h)
                        | inr ((err x, v), g) ↦
                            cc (rw (e, f, g, published, publish_public_key) at h)
                        | inr ((ok resp, v), g) ↦ (
                          body,
                          url,
                          resp,
                          v,
                          e,
                          f,
                          g,
                          response_success resp url (jose.public_key_id key)
                              (jose.private_key_id signing_key) cs v.1
                              (rw (e, f, g, published, publish_public_key) at h),
                        )
                      ]
            ]
    ]
