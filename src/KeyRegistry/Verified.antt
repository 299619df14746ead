-- ===== src/KeyRegistry/Verified.antt =====
-- `Verify` of jwt/jwt.go with the key registry's client as its key server.
mod Tests
use jwtproxy.Common.{
  ◌∙◌, ap, ◌≡◌, refl, inl, inr, Option-cases, Option, none, some, [], Bytes, codes, arith,
}
use jwtproxy.Common.Result.{Error, Result, ok, err, message}
use jwtproxy.Value.{Claims}
use jwtproxy.Http.{Url, UrlLib, Request, Response, http_ok}
use jwtproxy.Time.{Time, Duration}
use jwtproxy.KeyServer.{Reader, NonceStorage}
use jwtproxy.Jwt.Library.{Jose}
use jwtproxy.Jwt.Verify.{Token, verify}
use jwtproxy.Jwt.Verify.Checked.{IsOrdinary}
use jwtproxy.Jwt.Verify.Accepted.{IsAccepted, verify_sound}
use jwtproxy.KeyRegistry.{Client, NetLib, Do, key_url, prepare_request, fetch, get_public_key}
use jwtproxy.KeyRegistry.Laws.{get_public_key_ok}

module _ (jose : Jose) (lib : NetLib jose.PublicKey) {N : Type 0} (http_do : Do N)
    (krc : Client) where
  -- The registry answered the request for this issuer's key id with status 200, and this key, in this
  -- state of the network.
  pub record IsServed (issuer key_id : Bytes) (key : jose.PublicKey) (n : N) : Type 0 where
    pub url : Url
    pub req : Request
    pub resp : Response
    pub at_url : key_url jose lib krc issuer key_id ≡ some url
    pub prepared : prepare_request jose lib (codes "GET") url [] ≡ ok req
    pub answered : (http_do req n).0 ≡ ok resp
    pub status : resp.status ≡ http_ok
    pub decoded : lib.decode_key resp.body ≡ ok key

-- A client for which `absURL` panics with no issuer and key id: they are escaped, so their path parses.
abbrev pub NeverPanics : (jose : Jose) → NetLib jose.PublicKey → Client → Type 0
NeverPanics jose lib krc =
    (issuer key_id : Bytes) → (url : Url) × (key_url jose lib krc issuer key_id ≡ some url)

module _ (jose : Jose) (lib : NetLib jose.PublicKey) {N : Type 0} (http_do : Do N) (krc : Client)
    (addressed : NeverPanics jose lib krc) {W : Type 0} (network : W → N)
    (with_network : N → W → W) where
  -- The client as `Verify` is given it, over a state W of which the network is a part.
  unfoldable pub registry_reader : Reader W jose.PublicKey
  registry_reader = record {
    get_public_key = λ issuer key_id w.
        let (key, n) = fetch jose lib http_do (addressed issuer key_id).0 (network w) in
        (key, with_network n w);
  }

  -- This is `GetPublicKey`.
  get_public_key-fetch :
      (issuer key_id : Bytes) (n : N)
      → get_public_key jose lib http_do krc issuer key_id n
        ≡ some (fetch jose lib http_do (addressed issuer key_id).0 n)
  unfolding get_public_key
  get_public_key-fetch issuer key_id n = rw ((addressed issuer key_id).1, get_public_key) refl

  registry_reader_ok :
      (issuer key_id : Bytes) (w : W) (key : jose.PublicKey)
      → (registry_reader.get_public_key issuer key_id w).0 ≡ ok key
      → IsServed jose lib http_do krc issuer key_id key (network w)
  unfolding registry_reader
  registry_reader_ok issuer key_id w key h =
      let n = (fetch jose lib http_do (addressed issuer key_id).0 (network w)).1 in
      let got : get_public_key jose lib http_do krc issuer key_id (network w) ≡ some (ok key, n) =
        get_public_key-fetch issuer key_id (network w) ∙ ap (λ k. some (k, n)) h in
      let (url, req, resp, u, p, a, s, d) =
        get_public_key_ok jose lib http_do krc issuer key_id (network w) n key got in
      record {
        url = url;
        req = req;
        resp = resp;
        at_url = u;
        prepared = p;
        answered = a;
        status = s;
        decoded = d;
      }

  module _ (urls : UrlLib) (clock : W → Time × W) (nonce_storage : NonceStorage W) where
    -- the state in which `Verify` asks for the key: the clock was read, and the nonce was handed in
    abbrev pub when_asked : Token jose → Time → W → W
    when_asked t exp w =
        (nonce_storage.verify (jose.string_claim t.claims (codes "jti")).0 exp (clock w).1).1

    -- With the key registry's client, `Verify` accepts only tokens signed by a key that the registry,
    -- when it was asked for the key of the token's issuer and key id, answered with status 200.
    -- Premises: the client's absURL parses the path for every issuer and key id, and skew and limit
    -- are ordinary durations.
    pub registry_reader-verify :
        (req : Request) (audience : Url) (max_skew max_ttl : Duration) (w : W) (c : Claims)
        → IsOrdinary max_skew
        → IsOrdinary max_ttl
        → (verify urls jose clock registry_reader nonce_storage req audience max_skew max_ttl w).0
          ≡ ok c
        → (t : Token jose) × (a : IsAccepted urls jose clock registry_reader nonce_storage req
            audience max_skew max_ttl w t)
          × (c ≡ t.claims)
          × IsServed jose lib http_do krc a.subject.iss a.subject.kid a.key
              (network (when_asked t a.subject.exp w))
    registry_reader-verify req audience skew ttl w c hs ht h =
        let (t, a, same) =
          verify_sound urls jose clock registry_reader nonce_storage req audience skew ttl w c hs ht
            h in
        (
          t,
          a,
          same,
          registry_reader_ok a.subject.iss a.subject.kid (when_asked t a.subject.exp w) a.key
              a.served,
        )
