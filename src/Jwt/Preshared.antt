-- ===== src/Jwt/Preshared.antt =====
-- `Preshared` of jwt/keyserver/preshared/preshared.go, a key server with one key, and what `Verify`
-- makes of it.
pub mod Tests
use jwtproxy.Common.{
  ◌++◌, List, [], Option, Bool, true, not, ◌||◌, ◌≡◌, refl, inl, inr, Bool-cases, Bytes, codes,
  bytes_eq, if◌then◌else◌, arith,
}
use jwtproxy.Common.Result.{Error, Result, ok, err, message, or_nil, ◌>>=◌}
use jwtproxy.Value.{Claims, Value}
use jwtproxy.Yaml.{YamlLib, field}
use jwtproxy.Http.{Url, UrlLib, Request, equal_fold}
use jwtproxy.Time.{Time, Duration}
use jwtproxy.KeyServer.{Reader, NonceStorage}
use jwtproxy.Jwt.Library.{Jose}
use jwtproxy.Jwt.Verify.{Token, Subject, key_server_error, verify_key, verify}
use jwtproxy.Jwt.Verify.Checked.{IsOrdinary}
use jwtproxy.Jwt.Verify.Accepted.{IsAccepted, verify_sound}

-- The types of key that x509.ParsePKIXPublicKey returns.
pub data PkixKey (RsaKey : Type 0) : Type 0 where
  rsa_key : RsaKey → PkixKey RsaKey
  other_key : PkixKey RsaKey

-- What pem and x509 make of a key file: its block, none being a nil block, the block's type, and the
-- public key of its bytes.
pub record KeyFiles (RsaKey : Type 0) : Type 1 where
  pub read_file : Bytes → Result Bytes
  pub Block : Type 0
  pub decode : Bytes → Option Block
  pub block_type : Block → Bytes
  pub parse : Block → Result (PkixKey RsaKey)

-- `publicKey.(*rsa.PublicKey)`
unfoldable pub only_rsa : {RsaKey : Type 0} → PkixKey RsaKey → Result RsaKey
only_rsa (rsa_key key) = ok key
only_rsa other_key =
    err (message (codes "parsed public key doesn't appear to be an RSA public key"))

-- `loadPublicKey`
unfoldable pub load_public_key : {RsaKey : Type 0} → KeyFiles RsaKey → Bytes → Result RsaKey
load_public_key files path = do
  data_ ← files.read_file path
  block ← or_nil (files.decode data_) (message (codes "bad public key data"))
  (if bytes_eq (files.block_type block) (codes "PUBLIC KEY")
      then files.parse block >>= only_rsa
      else err (message (codes "unknown key type : " ++ files.block_type block)))

-- `Config`
pub record PresharedConfig : Type 0 where
  pub issuer : Bytes
  pub key_id : Bytes
  pub public_key_path : Bytes

-- Lines 51 to 59.
unfoldable pub decode_preshared : YamlLib → List (Bytes × Value) → Result PresharedConfig
decode_preshared lib options = do
  o ← lib.reencode options
  iss ← field (codes "issuer") lib.string [] o
  id ← field (codes "key_id") lib.string [] o
  path ← field (codes "public_key_path") lib.string [] o
  ok (record { issuer = iss; key_id = id; public_key_path = path })

module _ (lib : UrlLib) (jose : Jose) where
  pub record Preshared : Type 0 where
    pub public_key : jose.PublicKey
    pub issuer : Bytes

  -- `constructor`; `new_public_key` is key.NewPublicKey of the JWK with this id and RSA key, for
  -- signatures by RS256.
  unfoldable pub construct_preshared :
      {RsaKey : Type 0}
      → YamlLib
      → KeyFiles RsaKey
      → (new_public_key : Bytes → RsaKey → jose.PublicKey) → List (Bytes × Value)
      → Result Preshared
  construct_preshared yaml files new_public_key options = do
    cfg ← decode_preshared yaml options
    key ← load_public_key files cfg.public_key_path
    ok (record { public_key = new_public_key cfg.key_id key; issuer = cfg.issuer })

  -- `GetPublicKey`: issuer and key id are compared up to case.
  unfoldable pub get_preshared_key : Preshared → Bytes → Bytes → Result jose.PublicKey
  get_preshared_key preshared issuer key_id =
      if not (equal_fold lib issuer preshared.issuer)
        || not (equal_fold lib key_id (jose.public_key_id preshared.public_key))
      then err (message (codes "unknown public key"))
      else ok preshared.public_key

  get_preshared_key_ok :
      (preshared : Preshared) (issuer key_id : Bytes) (key : jose.PublicKey)
      → get_preshared_key preshared issuer key_id ≡ ok key
      → (equal_fold lib issuer preshared.issuer ≡ true)
        × (equal_fold lib key_id (jose.public_key_id preshared.public_key) ≡ true)
        × (key ≡ preshared.public_key)
  unfolding get_preshared_key
  get_preshared_key_ok preshared issuer key_id key h =
      elim (Bool-cases (equal_fold lib issuer preshared.issuer)) [
        | inr e ↦ cc (rw (e, get_preshared_key) at h)
        | inl e ↦
            elim (Bool-cases (equal_fold lib key_id (jose.public_key_id preshared.public_key))) [
              | inr f ↦ cc (rw (e, f, get_preshared_key) at h)
              | inl f ↦ (e, f, ground arith)
            ]
      ]

  module _ {W : Type 0} where
    -- the key server as `Verify` is given it
    unfoldable pub preshared_reader : Preshared → Reader W jose.PublicKey
    preshared_reader preshared = record {
      get_public_key = λ issuer key_id w. (get_preshared_key preshared issuer key_id, w);
    }

    -- With a preshared key, `Verify` accepts only tokens whose issuer and key id are the configured ones up
    -- to case, and whose signature the configured key verifies.
    pub preshared-verify :
        (preshared : Preshared) (clock : W → Time × W) (nonce_storage : NonceStorage W)
        (req : Request) (audience : Url) (max_skew max_ttl : Duration) (w : W) (c : Claims)
        → IsOrdinary max_skew
        → IsOrdinary max_ttl
        → (verify lib jose clock
            (preshared_reader preshared)
            nonce_storage
            req
            audience
            max_skew
            max_ttl
            w).0
          ≡ ok c
        → (t : Token jose) × (a : IsAccepted lib jose clock
            (preshared_reader preshared)
            nonce_storage
            req
            audience
            max_skew
            max_ttl
            w
            t)
          × (equal_fold lib a.subject.iss preshared.issuer ≡ true)
          × (equal_fold lib a.subject.kid (jose.public_key_id preshared.public_key) ≡ true)
          × (a.key ≡ preshared.public_key)
    unfolding preshared_reader
    preshared-verify preshared clock nonce_storage req audience max_skew max_ttl w c hs ht h =
        let (t, a, same) =
          verify_sound lib jose clock (preshared_reader preshared) nonce_storage req audience
            max_skew max_ttl w c hs ht h in
        let (iss, kid, key) =
          get_preshared_key_ok preshared a.subject.iss a.subject.kid a.key a.served in
        (t, a, iss, kid, key)
