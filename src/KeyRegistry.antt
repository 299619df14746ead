-- ===== src/KeyRegistry.antt =====
-- The client of the key registry: jwt/keyserver/keyregistry/keyregistry.go.
pub mod Publish
pub mod Laws
pub mod KeyPath
pub mod Verified
pub mod Stopping
pub mod Construct
pub mod Tests
use jwtproxy.Common.{
  ℕ, Bool, ◌==◌, ◌||◌, ◌++◌, Option, none, some, List, [], ◌∷◌, map, Bytes, codes, bytes_eq,
  if◌then◌else◌,
}
use jwtproxy.Common.Decimal.{decimal}
use jwtproxy.Common.Result.{
  Error, Result, ok, err, message, public_key_not_found, public_key_expired, unknown_response,
  ◌>>=◌,
}
use jwtproxy.Http.{
  Url, Request, Response, header_add, header_set, http_ok, http_forbidden, http_not_found,
  http_no_content,
}
use jwtproxy.Net.Path.{path_join}
use jwtproxy.Net.Escape.{query_escape}
use jwtproxy.Time.{Clock}
use jwtproxy.Config.{SignerParams}
use jwtproxy.Jwt.Library.{Jose}
use jwtproxy.Jwt.Sign.{Entropy, sign}

-- What the client uses of net/url, net/http and encoding/json, but for what Net has.
pub record NetLib (PublicKey : Type 0) : Type 0 where
  pub parse : Bytes → Result Url
  pub resolve_reference : Url → Url → Url
  -- `u.Query()` and `Encode()`
  pub query : Url → List (Bytes × Bytes)
  pub encode : List (Bytes × Bytes) → Bytes
  -- http.NewRequest with `url.String()`; a body that is nil is empty.
  pub new_request : Bytes → Url → Bytes → Result Request
  pub marshal_key : PublicKey → Result Bytes
  pub decode_key : Bytes → Result PublicKey

-- The fields of `client` that requests are made from; `stopping`, `inFlight` and the cache are in
-- Publish.
pub record Client : Type 0 where
  pub registry : Url
  pub signer_params : SignerParams

-- httpClient.Do, which changes the state N of the network.
abbrev pub Do : Type 0 → Type 0
Do N = Request → N → Result Response × N

-- Lines 279 to 285: the absolute path, each parameter escaped.
unfoldable pub registry_path : Bytes → List Bytes → Bytes
registry_path base path_params = path_join (base ∷ map query_escape path_params)

module _ (jose : Jose) (lib : NetLib jose.PublicKey) where
  open jose use {PublicKey, PrivateKey}

  -- `absURL`; none is its panic.
  unfoldable pub abs_url : Client → List Bytes → Option Url
  abs_url krc path_params = elim (lib.parse (registry_path krc.registry.path path_params)) [
    | err e ↦ none
    | ok relurl ↦ some (lib.resolve_reference krc.registry relurl)
  ]

  -- the address of a key
  abbrev pub key_url : Client → Bytes → Bytes → Option Url
  key_url krc issuer key_id = abs_url krc (codes "services" ∷ issuer ∷ codes "keys" ∷ key_id ∷ [])

  unfoldable pub prepare_request : Bytes → Url → Bytes → Result Request
  prepare_request method url body = do
    req ← lib.new_request method url body
    let req' : Request =
        if bytes_eq method (codes "PUT") || bytes_eq method (codes "POST")
        then record req {
          header = header_add (codes "Content-Type") (codes "application/json") req.header;
        }
        else req
    ok (record req' {
      header = header_set (codes "User-Agent") (codes "KeyRegistryClient/0.1.0") req'.header;
    })

  -- Lines 75 to 94: the registry's answer.
  unfoldable pub read_response : Response → Result PublicKey
  read_response resp =
      if resp.status == http_ok
      then lib.decode_key resp.body
      else if resp.status == http_not_found
      then err public_key_not_found
      else if resp.status == http_forbidden
      then err public_key_expired
      else err unknown_response

  module _ {N : Type 0} (http_do : Do N) where
    -- Lines 66 to 94, at the URL of the key.
    unfoldable pub fetch : Url → N → Result PublicKey × N
    fetch url n = elim (prepare_request (codes "GET") url []) [
      | err e ↦ (err e, n)
      | ok req ↦ let (resp, n') = http_do req n in ((do resp ← resp; read_response resp), n')
    ]

    -- `GetPublicKey`; none is the panic of `absURL`.
    unfoldable pub get_public_key : Client → Bytes → Bytes → N → Option (Result PublicKey × N)
    get_public_key krc issuer key_id n = elim (key_url krc issuer key_id) [
      | none ↦ none
      | some url ↦ some (fetch url n)
    ]

    -- `VerifyPublicKey`: the error, or nil.
    unfoldable pub verify_public_key : Client → Bytes → N → Option (Option Error × N)
    verify_public_key krc key_id n = elim (get_public_key krc krc.signer_params.issuer key_id n) [
      | none ↦ none
      | some (ok key, n') ↦ some (none, n')
      | some (err e, n') ↦ some (some e, n')
    ]

    module _ (clock : Clock) {S : Type 0} (int63 : S → ℕ × S) where
      -- `signAndDo`; none is the panic of `Sign`.
      unfoldable pub sign_and_do :
          Client
          → Bytes
          → Url
          → Bytes
          → PrivateKey
          → Entropy clock S × N
          → Option (Result Response × (Entropy clock S × N))
      sign_and_do krc method url body signing_key (w, n) = elim (prepare_request method url body) [
        | err e ↦ some (err e, (w, n))
        | ok req ↦ elim (sign jose clock int63 req signing_key krc.signer_params w) [
          | none ↦ none
          | some (err e, w') ↦ some (err e, (w', n))
          | some (ok signed, w') ↦ let (resp, n') = http_do signed n in some (resp, (w', n'))
        ]
      ]

      -- `DeletePublicKey`
      unfoldable pub delete_public_key :
          Client → PrivateKey → Entropy clock S × N → Option (Option Error × (Entropy clock S × N))
      delete_public_key krc signing_key w =
          elim (key_url krc krc.signer_params.issuer (jose.private_key_id signing_key)) [
            | none ↦ none
            | some url ↦ elim (sign_and_do krc (codes "DELETE") url [] signing_key w) [
              | none ↦ none
              | some (err e, w') ↦ some (some e, w')
              | some (ok resp, w') ↦ some (
                (if resp.status == http_no_content
                    then none
                    else some (
                        message (
                          codes "Unexpected response code when deleting public key: "
                          ++ decimal resp.status))),
                w',
              )
            ]
          ]
