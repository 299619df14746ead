-- ===== src/KeyRegistry/Laws.antt =====
-- When the client of the key registry reports a key or a deletion.
use jwtproxy.Common.{
  ℕ, ◌≡◌, refl, ◌≢◌, ◌↔◌, inl, inr, Bool-cases, Option-cases, ◌==◌, ==_iff, none, some, [], Bytes,
  codes, arith,
}
use jwtproxy.Common.Result.{Result, ok, err, public_key_not_found, public_key_expired, Result-cases}
use jwtproxy.Http.{Url, Request, Response, http_ok, http_not_found, http_forbidden, http_no_content}
use jwtproxy.Time.{Clock}
use jwtproxy.Jwt.Library.{Jose}
use jwtproxy.Jwt.Sign.{Entropy, sign}
use jwtproxy.KeyRegistry.{
  Client, NetLib, Do, key_url, prepare_request, read_response, fetch, get_public_key, sign_and_do,
  delete_public_key,
}

module _ (jose : Jose) (lib : NetLib jose.PublicKey) {N : Type 0} (http_do : Do N)
    (krc : Client) where
  read_response_ok :
      (resp : Response) (key : jose.PublicKey)
      → read_response jose lib resp ≡ ok key
      → (resp.status ≡ http_ok) × (lib.decode_key resp.body ≡ ok key)
  unfolding read_response
  read_response_ok resp key h = elim (Bool-cases (resp.status == http_ok)) [
    | inl e ↦ ((==_iff resp.status http_ok).0 e, ground arith)
    | inr e ↦ elim (Bool-cases (resp.status == http_not_found)) [
      | inl f ↦ cc (rw (e, f, read_response) at h)
      | inr f ↦ elim (Bool-cases (resp.status == http_forbidden)) [
        | inl g ↦ cc (rw (e, f, g, read_response) at h)
        | inr g ↦ cc (rw (e, f, g, read_response) at h)
      ]
    ]
  ]

  read_response_refused :
      (resp : Response)
      → resp.status ≢ http_ok
      → ((read_response jose lib resp ≡ err public_key_not_found) ↔ (resp.status ≡ http_not_found))
        × ((read_response jose lib resp ≡ err public_key_expired) ↔ (resp.status ≡ http_forbidden))
  unfolding read_response
  read_response_refused resp other = elim (Bool-cases (resp.status == http_not_found)) [
    | inl f ↦ ground arith
    | inr f ↦ elim (Bool-cases (resp.status == http_forbidden)) [
      | inl g ↦ ground arith
      | inr g ↦ ground arith
    ]
  ]

  -- the registry's answer to the request for this URL
  abbrev pub answer : Request → N → Result Response
  answer req n = (http_do req n).0

  -- A key that `GetPublicKey` returns is one that the registry answered with status 200, at the URL of the
  -- issuer and the key id, and that decodes from the answer's body.
  pub get_public_key_ok :
      (issuer key_id : Bytes) (n n' : N) (key : jose.PublicKey)
      → get_public_key jose lib http_do krc issuer key_id n ≡ some (ok key, n')
      → (url : Url) × (req : Request) × (resp : Response) × (key_url jose lib krc issuer key_id
          ≡ some url)
        × (prepare_request jose lib (codes "GET") url [] ≡ ok req)
        × (answer req n ≡ ok resp)
        × (resp.status ≡ http_ok)
        × (lib.decode_key resp.body ≡ ok key)
  unfolding get_public_key fetch
  get_public_key_ok issuer key_id n n' key h =
      elim (Option-cases (key_url jose lib krc issuer key_id)) [
        | inl e ↦ cc (rw (e, get_public_key) at h)
        | inr (url, e) ↦ elim (Result-cases (prepare_request jose lib (codes "GET") url [])) [
          | inr (x, f) ↦ cc (rw (e, f, get_public_key, fetch) at h)
          | inl (req, f) ↦ elim (Result-cases (http_do req n).0) [
            | inr (x, g) ↦ cc (rw (e, f, g, get_public_key, fetch) at h)
            | inl (resp, g) ↦
                let read : read_response jose lib resp ≡ ok key = ground arith in
                let (status, decoded) = read_response_ok resp key read in
                (url, req, resp, e, f, g, status, decoded)
          ]
        ]
      ]

  -- If the registry answers with another status than 200, the error is ErrPublicKeyNotFound exactly at
  -- 404 and ErrPublicKeyExpired exactly at 403.
  get_public_key_refused :
      (issuer key_id : Bytes) (n : N) (url : Url) (req : Request) (resp : Response)
      → key_url jose lib krc issuer key_id ≡ some url
      → prepare_request jose lib (codes "GET") url [] ≡ ok req
      → answer req n ≡ ok resp
      → resp.status ≢ http_ok
      → ((key : Result jose.PublicKey) × (get_public_key jose lib http_do krc issuer key_id n
            ≡ some (key, (http_do req n).1))
          × ((key ≡ err public_key_not_found) ↔ (resp.status ≡ http_not_found))
          × ((key ≡ err public_key_expired) ↔ (resp.status ≡ http_forbidden)))
  unfolding get_public_key fetch read_response
  get_public_key_refused issuer key_id n url req resp e f g other = (
    read_response jose lib resp,
    rw (e, f, g, get_public_key, fetch) refl,
    (read_response_refused resp other).0,
    (read_response_refused resp other).1,
  )

  module _ (clock : Clock) {S : Type 0} (int63 : S → ℕ × S) where
    -- the request was signed, and this is the registry's answer to it
    pub record IsAnswered (method : Bytes) (url : Url) (signing_key : jose.PrivateKey)
        (w : Entropy clock S) (n : N) (resp : Response) : Type 0 where
      pub req : Request
      pub signed : Request
      pub after : Entropy clock S
      pub prepared : prepare_request jose lib method url [] ≡ ok req
      pub made : sign jose clock int63 req signing_key krc.signer_params w ≡ some (ok signed, after)
      pub answered : answer signed n ≡ ok resp

    sign_and_do_ok :
        (method : Bytes) (url : Url) (signing_key : jose.PrivateKey) (w : Entropy clock S) (n : N)
        (resp : Response) (v : Entropy clock S × N)
        → sign_and_do jose lib http_do clock int63 krc method url [] signing_key (w, n)
          ≡ some (ok resp, v)
        → IsAnswered method url signing_key w n resp
    unfolding sign_and_do
    sign_and_do_ok method url signing_key w n resp v h =
        elim (Result-cases (prepare_request jose lib method url [])) [
          | inr (x, f) ↦ cc (rw (f, sign_and_do) at h)
          | inl (req, f) ↦
              elim (Option-cases (sign jose clock int63 req signing_key krc.signer_params w)) [
                | inl g ↦ cc (rw (f, g, sign_and_do) at h)
                | inr ((err x, w'), g) ↦ cc (rw (f, g, sign_and_do) at h)
                | inr ((ok signed, w'), g) ↦ record {
                  req = req;
                  signed = signed;
                  after = w';
                  prepared = f;
                  made = g;
                  answered = ground arith;
                }
              ]
        ]

    -- A deletion that reports no error was sent as a signed DELETE request to the URL of the key, and
    -- the registry answered it with status 204.
    delete_public_key_ok :
        (signing_key : jose.PrivateKey) (w : Entropy clock S) (n : N) (v : Entropy clock S × N)
        → delete_public_key jose lib http_do clock int63 krc signing_key (w, n) ≡ some (none, v)
        → (url : Url) × (resp : Response) × (key_url jose lib krc krc.signer_params.issuer
              (jose.private_key_id signing_key)
            ≡ some url)
          × IsAnswered (codes "DELETE") url signing_key w n resp
          × (resp.status ≡ http_no_content)
    unfolding delete_public_key
    delete_public_key_ok signing_key w n v h =
        elim (Option-cases
          (key_url jose lib krc krc.signer_params.issuer (jose.private_key_id signing_key))) [
            | inl e ↦ cc (rw (e, delete_public_key) at h)
            | inr (url, e) ↦
                elim (Option-cases (
                  sign_and_do jose lib http_do clock int63 krc (codes "DELETE") url [] signing_key
                    (w, n))) [
                      | inl f ↦ cc (rw (e, f, delete_public_key) at h)
                      | inr ((err x, u), f) ↦ cc (rw (e, f, delete_public_key) at h)
                      | inr ((ok resp, u), f) ↦ elim (Bool-cases (resp.status == http_no_content)) [
                        | inl st ↦ (
                          url,
                          resp,
                          e,
                          sign_and_do_ok (codes "DELETE") url signing_key w n resp u f,
                          (==_iff resp.status http_no_content).0 st,
                        )
                        | inr st ↦ cc (rw (e, f, st, delete_public_key) at h)
                      ]
                    ]
          ]
