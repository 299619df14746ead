-- ===== src/PrivateKey/Preshared.antt =====
-- `Preshared` of jwt/privatekey/preshared/preshared.go, a private key that is read from a file once.
mod Tests
use jwtproxy.Common.{
  ◌≡◌, refl, sym, inl, inr, Bool-cases, Option-cases, Bool, true, false, Option, none, some, List,
  [], ◌++◌, Bytes, codes, bytes_eq, bytes_eq_iff, if◌then◌else◌, arith,
}
use jwtproxy.Common.Result.{
  Error, Result, ok, err, message, Result-cases, or_nil, ok_injective, ◌>>=◌,
}
use jwtproxy.Value.{Value}
use jwtproxy.Yaml.{YamlLib, field}
use jwtproxy.PrivateKey.Files.{PrivateKey}

-- Of the standard library: files, PEM blocks, and RSA keys in PKCS #1.
pub record RsaFiles (RsaKey : Type 0) : Type 1 where
  pub read_file : Bytes → Result Bytes
  pub Block : Type 0
  -- pem.Decode, none being a nil block
  pub decode : Bytes → Option Block
  pub block_type : Block → Bytes
  -- x509.ParsePKCS1PrivateKey, Validate and Precompute
  pub parse : Block → Result RsaKey
  pub validate : RsaKey → Option Error
  pub precompute : RsaKey → RsaKey

-- `Config`
pub record PresharedConfig : Type 0 where
  pub key_id : Bytes
  pub private_key_path : Bytes

unfoldable pub decode_preshared : YamlLib → List (Bytes × Value) → Result PresharedConfig
decode_preshared lib options = do
  o ← lib.reencode options
  id ← field (codes "key_id") lib.string [] o
  path ← field (codes "private_key_path") lib.string [] o
  ok (record { key_id = id; private_key_path = path })

module _ {RsaKey : Type 0} (files : RsaFiles RsaKey) where
  -- `if err := privateKey.Validate()`, and Precompute
  unfoldable pub checked_key : RsaKey → Result RsaKey
  checked_key key = elim (files.validate key) [ some e ↦ err e | none ↦ ok (files.precompute key) ]

  -- `loadPrivateKey`
  unfoldable pub load_rsa_key : Bytes → Result RsaKey
  load_rsa_key path = do
    contents ← files.read_file path
    block ← or_nil (files.decode contents) (message (codes "bad private key data"))
    (if bytes_eq (files.block_type block) (codes "RSA PRIVATE KEY")
        then files.parse block >>= checked_key
        else err (message (codes "unknown key type : " ++ files.block_type block)))

  -- `constructor`; `GetPrivateKey` then always returns this key, and `Stop` is done at once.
  unfoldable pub construct_preshared : YamlLib → List (Bytes × Value) → Result (PrivateKey RsaKey)
  construct_preshared lib options = do
    cfg ← decode_preshared lib options
    rsa ← load_rsa_key cfg.private_key_path
    ok (record { key_id = cfg.key_id; rsa = rsa })

  -- A key that is loaded came from a PEM block of type "RSA PRIVATE KEY" that parses to a key which
  -- validates.
  load_rsa_key_ok :
      (path : Bytes) (key : RsaKey)
      → load_rsa_key path ≡ ok key
      → (contents : Bytes) × (block : files.Block) × (raw : RsaKey) × (files.read_file path
          ≡ ok contents)
        × (files.decode contents ≡ some block)
        × (files.block_type block ≡ codes "RSA PRIVATE KEY")
        × (files.parse block ≡ ok raw)
        × (files.validate raw ≡ none)
        × (key ≡ files.precompute raw)
  unfolding load_rsa_key checked_key
  load_rsa_key_ok path key h = elim (Result-cases (files.read_file path)) [
    | inr (x, e) ↦ cc (rw (e, load_rsa_key) at h)
    | inl (contents, e) ↦ elim (Option-cases (files.decode contents)) [
      | inl f ↦ cc (rw (e, f, load_rsa_key) at h)
      | inr (block, f) ↦
          elim (Bool-cases (bytes_eq (files.block_type block) (codes "RSA PRIVATE KEY"))) [
            | inr g ↦ cc (rw (e, f, g, load_rsa_key) at h)
            | inl g ↦ elim (Result-cases (files.parse block)) [
              | inr (x, p) ↦ cc (rw (e, f, g, p, load_rsa_key) at h)
              | inl (raw, p) ↦ elim (Option-cases (files.validate raw)) [
                | inr (x, v) ↦ cc (rw (e, f, g, p, v, load_rsa_key, checked_key) at h)
                | inl v ↦ (
                  contents,
                  block,
                  raw,
                  e,
                  f,
                  (bytes_eq_iff (files.block_type block) (codes "RSA PRIVATE KEY")).0 g,
                  p,
                  v,
                  sym (ok_injective (rw (e, f, g, p, v, load_rsa_key, checked_key) at h)),
                )
              ]
            ]
          ]
    ]
  ]
