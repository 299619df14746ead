-- ===== src/KeyRegistry/Construct/Tests.antt =====
-- A reader without options, and one whose cache cannot be made.
use jwtproxy.Common.{ℕ, suc, ◌≡◌, refl, none, some, [], ◌∷◌, codes, bytes_eq, lookup, if◌then◌else◌}
use jwtproxy.Common.Result.{ok, err, message, wrapped}
use jwtproxy.Value.{str}
use jwtproxy.Yaml.{YamlLib, field}
use jwtproxy.Registry.{Constructor}
use jwtproxy.Proxy.Construct.{Component}
use jwtproxy.KeyRegistry.Stopping.{start}
use jwtproxy.KeyRegistry.Construct.{
  NewClient, cached_by, no_params, decode_reader, cache_config, construct_memory_cache,
  construct_reader,
}

abbrev plain : YamlLib
plain = record {
  reencode = λ options. ok options;
  string = λ v. err (message (codes "no string"));
  duration = λ v. err (message (codes "no duration"));
  url = λ v. ok none;
  component = λ v. ok (record { type = codes "other"; options = [] });
}

-- caches that are numbers, the next of which is the state
abbrev memory_cache : Constructor ℕ (Component ℕ ℕ)
memory_cache = construct_memory_cache (λ n. (n, suc n)) 0

abbrev only_memory : Constructor ℕ (Component ℕ ℕ)
only_memory cfg n =
    if bytes_eq cfg.type (codes "memory")
    then memory_cache cfg n
    else (err (message (codes "unknown")), n)

abbrev reader : NewClient ℕ ℕ
reader = record {
  registry = none;
  signer_params = no_params;
  cache = some (record { impl = 7; stop_func = λ n. (some 0, n) });
  http_client = cached_by 7;
  life = start;
}

-- Without an option "registry" the client has no URL, and every request of it panics.
in_memory :
    construct_reader plain only_memory (record { type = codes "keyregistry"; options = [] }) 7
    ≡ (ok reader, 8)
unfolding construct_reader decode_reader field lookup cache_config construct_memory_cache bytes_eq
in_memory = refl

no_cache :
    construct_reader plain only_memory
      (record { type = codes "keyregistry"; options = (codes "cache", str []) ∷ [] })
      7
    ≡ (err (wrapped (codes "Unable to construct cache: ") (message (codes "unknown"))), 7)
unfolding construct_reader decode_reader field lookup cache_config bytes_eq
no_cache = refl
