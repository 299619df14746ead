-- ===== src/Config.antt =====
-- The configuration of config/config.go: its types, the defaults, and `Load`.
use jwtproxy.Common.{
  Bool, true, false, Option, none, some, bytes_eq, if◌then◌else◌, List, [], ◌∷◌, Bytes, codes,
}
use jwtproxy.Common.Int.{ℤ, pos}
use jwtproxy.Value.{Value, int}
use jwtproxy.Common.Result.{Result, ok, ◌>>=◌}
use jwtproxy.Http.{Url, UrlLib}
use jwtproxy.Time.{Duration, seconds, minutes}

-- `RegistrableComponentConfig`
pub record ComponentConfig : Type 0 where
  pub type : Bytes
  pub options : List (Bytes × Value)

-- A `URL` is nil until it is set.
pub record VerifierConfig : Type 0 where
  pub upstream : Option Url
  pub audience : Option Url
  pub max_skew : Duration
  pub max_ttl : Duration
  pub key_server : ComponentConfig
  pub nonce_storage : ComponentConfig
  pub claims_verifiers : Option (List ComponentConfig)

pub record SignerParams : Type 0 where
  pub issuer : Bytes
  pub expiration_time : Duration
  pub max_skew : Duration
  pub nonce_length : ℤ

pub record SignerConfig : Type 0 where
  pub params : SignerParams
  pub open params use *
  pub private_key : ComponentConfig

pub record VerifierProxyConfig : Type 0 where
  pub enabled : Bool
  pub listen_addr : Bytes
  pub shutdown_timeout : Duration
  pub crt_file : Bytes
  pub key_file : Bytes
  pub verifier : VerifierConfig

pub record SignerProxyConfig : Type 0 where
  pub enabled : Bool
  pub listen_addr : Bytes
  pub shutdown_timeout : Duration
  pub ca_key_file : Bytes
  pub ca_crt_file : Bytes
  pub trusted_certificates : List Bytes
  pub insecure_skip_verify : Bool
  pub signer : SignerConfig

pub record Config : Type 0 where
  pub signer_proxy : SignerProxyConfig
  pub verifier_proxies : List VerifierProxyConfig

abbrev no_component : ComponentConfig
no_component = record { type = []; options = [] }

-- What `VerifierProxyConfig.UnmarshalYAML` starts from.
abbrev pub default_verifier_proxy : VerifierProxyConfig
default_verifier_proxy = record {
  enabled = true;
  listen_addr = codes ":8082";
  shutdown_timeout = seconds 5;
  crt_file = [];
  key_file = [];
  verifier = record {
    upstream = none;
    audience = none;
    max_skew = minutes 5;
    max_ttl = minutes 5;
    key_server = no_component;
    nonce_storage = record {
      type = codes "local";
      options = (codes "PurgeInterval", int (minutes 1)) ∷ [];
    };
    claims_verifiers = none;
  };
}

-- `VerifierProxyConfig.UnmarshalYAML`, with yaml.v2's decoding over a value of the same fields.
unfoldable pub unmarshal_verifier_proxy :
    (unmarshal : VerifierProxyConfig → Result VerifierProxyConfig) → Result VerifierProxyConfig
unmarshal_verifier_proxy unmarshal = do temp_cfg ← unmarshal default_verifier_proxy; ok temp_cfg

-- `DefaultConfig`
abbrev pub default_config : Config
default_config = record {
  signer_proxy = record {
    enabled = true;
    listen_addr = codes ":8080";
    shutdown_timeout = seconds 5;
    ca_key_file = [];
    ca_crt_file = [];
    trusted_certificates = [];
    insecure_skip_verify = false;
    signer = record {
      params = record {
        issuer = codes "jwtproxy";
        expiration_time = minutes 5;
        max_skew = minutes 1;
        nonce_length = pos 32;
      };
      private_key = no_component;
    };
  };
  verifier_proxies = [];
}

-- `Load`: os.Open of the expanded path, ioutil.ReadAll, and yaml.Unmarshal over the defaults.
unfoldable pub load :
    (open_and_read : Bytes → Result Bytes)
    → (unmarshal : Bytes → Config → Result Config) → Bytes
    → Result Config
load open_and_read unmarshal path =
    if bytes_eq path []
    then ok default_config
    else (do d ← open_and_read path; unmarshal d default_config)

-- `URL.UnmarshalYAML`, on the string that yaml.v2 reads, and `URL.MarshalYAML`; none is nil.
unfoldable pub unmarshal_url : UrlLib → Result Bytes → Result (Option Url)
unmarshal_url lib text = do s ← text; url ← lib.parse s; ok (some url)

unfoldable pub marshal_url : UrlLib → Option Url → Option Bytes
marshal_url lib none = none
marshal_url lib (some url) = some (lib.print url)
