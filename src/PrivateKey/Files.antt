-- ===== src/PrivateKey/Files.antt =====
-- `keyPath`, `loadPrivateKey` and `savePrivateKey` of
-- jwt/privatekey/autogenerated/autogenerated.go, over a file system that is a parameter.
pub mod Laws
use jwtproxy.Common.{
  Bool, true, false, ◌++◌, Option, none, some, [], ◌∷◌, Bytes, codes, bytes_eq, if◌then◌else◌,
}
use jwtproxy.Common.Result.{Error, Result, ok, err}
use jwtproxy.Net.Path.{path_join}

-- the environment variables that `keyPath` reads, "" if not set
pub record Env : Type 0 where
  pub xdg_config_home : Bytes
  pub home : Bytes

-- `keyPath`
unfoldable pub config_path : Env → Bytes
config_path env =
    if bytes_eq env.xdg_config_home []
    then path_join (env.home ∷ codes ".config" ∷ [])
    else env.xdg_config_home

unfoldable pub base_path : Env → Bytes → Bytes
base_path env given =
    if bytes_eq given [] then path_join (config_path env ∷ codes "jwtproxy" ∷ []) else given

unfoldable pub key_path : Env → Bytes → Bytes → Bytes
key_path env given issuer = path_join (base_path env given ∷ (issuer ++ codes ".jwk") ∷ [])

-- Files in a state F: ioutil.ReadFile, os.MkdirAll on the directory of a path, os.OpenFile which makes
-- the file empty, and Write, whose result is not looked at.
pub record Files (F : Type 0) : Type 0 where
  pub read_file : Bytes → F → Result Bytes
  pub mkdir_all : Bytes → F → Option Error × F
  pub open_empty : Bytes → F → Option Error × F
  pub write : Bytes → Bytes → F → F
  -- path.Dir
  pub dir : Bytes → Bytes

-- go-jose's JSON web keys: the key id, and the key of RSA or none for one of another kind.
pub record JwkLib (RsaKey : Type 0) : Type 0 where
  pub marshal : Bytes → RsaKey → Result Bytes
  pub unmarshal : Bytes → Result (Bytes × Option RsaKey)
  -- rsa.PrivateKey's Validate and Precompute
  pub validate : RsaKey → Option Error
  pub precompute : RsaKey → RsaKey

-- `key.PrivateKey` of go-oidc
pub record PrivateKey (RsaKey : Type 0) : Type 0 where
  pub key_id : Bytes
  pub rsa : RsaKey

module _ {F RsaKey : Type 0} (files : Files F) (jwk : JwkLib RsaKey) where
  -- `loadPrivateKey`; none is the panic of the type assertion at a key that is not one of RSA.
  unfoldable pub load_private_key : Bytes → F → Option (Result (PrivateKey RsaKey))
  load_private_key path f = elim (files.read_file path f) [
    | err e ↦ some (err e)
    | ok contents ↦ elim (jwk.unmarshal contents) [
      | err e ↦ some (err e)
      | ok (id, none) ↦ none
      | ok (id, some rsa) ↦ elim (jwk.validate rsa) [
        | some e ↦ some (err e)
        | none ↦ some (ok (record { key_id = id; rsa = jwk.precompute rsa }))
      ]
    ]
  ]

  -- `savePrivateKey`: the file is emptied before the key is encoded.
  unfoldable pub save_private_key : PrivateKey RsaKey → Bytes → F → Option Error × F
  save_private_key key path f =
      let (failed, f1) = files.mkdir_all (files.dir path) f in
      elim failed [
        | some e ↦ (some e, f1)
        | none ↦
            let (failed', f2) = files.open_empty path f1 in
            elim failed' [
              | some e ↦ (some e, f2)
              | none ↦ elim (jwk.marshal key.key_id key.rsa) [
                | err e ↦ (some e, f2)
                | ok json ↦ (none, files.write path json f2)
              ]
            ]
      ]
