-- ===== src/KeyRegistry/Construct.antt =====
-- The constructors of the key registry's clients, in jwt/keyserver/keyregistry/keyregistry.go, and of the
-- cache in memory that a reader has by default (jwt/keyserver/keyregistry/keycache/memory/memory.go).
mod Tests
use jwtproxy.Common.{ℕ, Option, none, some, List, [], Bytes, codes}
use jwtproxy.Common.Int.{pos}
use jwtproxy.Common.Result.{Result, ok, err, wrapped, ◌>>=◌}
use jwtproxy.Value.{Value}
use jwtproxy.Http.{Url}
use jwtproxy.Yaml.{YamlLib, field, pointer}
use jwtproxy.Config.{ComponentConfig, SignerParams}
use jwtproxy.Registry.{Constructor, SignerConstructor}
use jwtproxy.Proxy.Construct.{Component}
use jwtproxy.KeyRegistry.Stopping.{Life, start}

-- `constructor` of the cache in memory: httpcache.NewMemoryCache, and a `Stop` that is done at once,
-- whose channel is `already_done`.
unfoldable pub construct_memory_cache :
    {W Cache : Type 0} → (W → Cache × W) → ℕ → Constructor W (Component W Cache)
construct_memory_cache new_memory_cache already_done cfg w =
    let (cache, w') = new_memory_cache w in
    (ok (record { impl = cache; stop_func = λ w. (some already_done, w) }), w')

-- http.DefaultClient, or one whose transport is httpcache's over this cache
pub data HttpClient (Cache : Type 0) : Type 0 where
  default_client : HttpClient Cache
  cached_by : Cache → HttpClient Cache

-- `client`, whose `inFlight` and `stopping` are in `life`.
pub record NewClient (W Cache : Type 0) : Type 0 where
  pub registry : Option Url
  pub signer_params : SignerParams
  pub cache : Option (Component W Cache)
  pub http_client : HttpClient Cache
  pub life : Life

-- `ReaderConfig`
pub record ReaderConfig : Type 0 where
  pub registry : Option Url
  pub cache : Option ComponentConfig

-- Lines 294 to 302, and 331 to 339 without the cache.
unfoldable pub decode_registry : YamlLib → List (Bytes × Value) → Result (Option Url)
decode_registry lib options = do o ← lib.reencode options; field (codes "registry") lib.url none o

unfoldable pub decode_reader : YamlLib → List (Bytes × Value) → Result ReaderConfig
decode_reader lib options = do
  o ← lib.reencode options
  registry ← field (codes "registry") lib.url none o
  cache ← field (codes "cache") (pointer lib.component) none o
  ok (record { registry = registry; cache = cache })

-- Lines 305 to 310.
unfoldable pub cache_config : Option ComponentConfig → ComponentConfig
cache_config none = record { type = codes "memory"; options = [] }
cache_config (some cfg) = cfg

abbrev no_params : SignerParams
no_params = record { issuer = []; expiration_time = pos 0; max_skew = pos 0; nonce_length = pos 0 }

module _ {W Cache : Type 0} (lib : YamlLib) where
  unfoldable pub construct_reader :
      Constructor W (Component W Cache) → Constructor W (NewClient W Cache)
  construct_reader new_cache component w = elim (decode_reader lib component.options) [
    | err e ↦ (err e, w)
    | ok cfg ↦
        let (made, w') = new_cache (cache_config cfg.cache) w in
        elim made [
          | err e ↦ (err (wrapped (codes "Unable to construct cache: ") e), w')
          | ok cache ↦ (
            ok (record {
              registry = cfg.registry;
              signer_params = no_params;
              cache = some cache;
              http_client = cached_by cache.impl;
              life = start;
            }),
            w',
          )
        ]
  ]

  unfoldable pub construct_manager : SignerConstructor W (NewClient W Cache)
  construct_manager component params w = elim (decode_registry lib component.options) [
    | err e ↦ (err e, w)
    | ok registry ↦ (
      ok (record {
        registry = registry;
        signer_params = params;
        cache = none;
        http_client = default_client;
        life = start;
      }),
      w,
    )
  ]
