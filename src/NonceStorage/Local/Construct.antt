-- ===== src/NonceStorage/Local/Construct.antt =====
-- The constructor of jwt/noncestorage/local/local.go: how often the cache is purged. The nonce storage's
-- `Stop` is done at once and changes nothing.
mod Tests
use jwtproxy.Common.{◌≡◌, ap, bytes_eq, refl, Option, none, some, List, Bytes, codes, lookup, arith}
use jwtproxy.Common.Int.{ℤ, pos, negsuc}
use jwtproxy.Common.Result.{Result, ok, err, ◌>>=◌}
use jwtproxy.Value.{Value}
use jwtproxy.Time.{Duration}
use jwtproxy.Yaml.{YamlLib, field}
use jwtproxy.Config.{default_verifier_proxy}

-- The arguments of go-cache's `New`.
pub record CacheConfig : Type 0 where
  pub default_expiration : Duration
  pub purge_interval : Duration

-- cache.NoExpiration
abbrev pub no_expiration : Duration
no_expiration = negsuc 0

-- `constructor`
unfoldable pub construct_local : YamlLib → List (Bytes × Value) → Result CacheConfig
construct_local lib options = do
  o ← lib.reencode options
  interval ← field (codes "purge_interval") lib.duration (pos 0) o
  ok (record { default_expiration = no_expiration; purge_interval = interval })

-- the options that `VerifierProxyConfig.UnmarshalYAML` sets by default
abbrev pub default_options : List (Bytes × Value)
default_options = default_verifier_proxy.verifier.nonce_storage.options

-- Encoding options and reading them again adds no name.
pub AddsNoName : YamlLib → Type 0
AddsNoName lib =
    (options o : List (Bytes × Value)) (name : Bytes)
    → lib.reencode options ≡ ok o
    → lookup name options ≡ none
    → lookup name o ≡ none

default_name : lookup (codes "purge_interval") default_options ≡ none
unfolding lookup bytes_eq
default_name = refl

field_missing :
    {A : Type 0} (tag : Bytes) (decode : Value → Result A) (before : A)
    (options : List (Bytes × Value))
    → lookup tag options ≡ none
    → field tag decode before options ≡ ok before
unfolding field
field_missing tag decode before options e = rw (e, field) refl

-- With the default options, if they can be encoded, the purge interval is 0 and not the minute that the
-- configuration sets, as that stands under another name.
construct_local-default :
    (lib : YamlLib) (o : List (Bytes × Value))
    → AddsNoName lib
    → lib.reencode default_options ≡ ok o
    → construct_local lib default_options
      ≡ ok (record { default_expiration = no_expiration; purge_interval = pos 0 })
unfolding AddsNoName construct_local
construct_local-default lib o adds h =
    let gone = adds default_options o (codes "purge_interval") h default_name in
    let unset = field_missing (codes "purge_interval") lib.duration (pos 0) o gone in
    rw h (
      ap (λ r. r >>= (λ t. ok (record { default_expiration = no_expiration; purge_interval = t })))
        unset)
