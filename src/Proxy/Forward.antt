-- ===== src/Proxy/Forward.antt =====
-- `Serve` as a whole, `NewProxy` and `NewReverseProxy` of proxy/proxy.go. Reading files, listening, and
-- the servers of goproxy and net/http are parameters.
pub mod Laws
use jwtproxy.Common.{
  Bool, true, false, ◌||◌, Option, none, some, List, [], ◌∷◌, Bytes, codes, bytes_eq, if◌then◌else◌,
}
use jwtproxy.Common.Affix.{has_prefix, trim_prefix}
use jwtproxy.Common.Result.{Error, Result, ok, err}
use jwtproxy.Proxy.Server.{
  Listen, unix_socket, tls, tcp, Server, choose_listener, serve_result, root_certificates,
}

-- `readCA`, with tls.X509KeyPair and x509.ParseCertificate of its leaf
pub record CaLib (Pair Leaf : Type 0) : Type 0 where
  pub read_file : Bytes → Result Bytes
  pub key_pair : Bytes → Bytes → Result Pair
  pub parse_leaf : Pair → Result Leaf

module _ {Pair Leaf : Type 0} (lib : CaLib Pair Leaf) where
  unfoldable pub read_ca : Bytes → Bytes → Result (Pair × Leaf)
  read_ca ca_key_path ca_cert_path = elim (lib.read_file ca_cert_path) [
    | err e ↦ err e
    | ok cert ↦ elim (lib.read_file ca_key_path) [
      | err e ↦ err e
      | ok key ↦ elim (lib.key_pair cert key) [
        | err e ↦ err e
        | ok pair ↦ elim (lib.parse_leaf pair) [ err e ↦ err e | ok leaf ↦ ok (pair, leaf) ]
      ]
    ]
  ]

  -- What a CONNECT request is answered with: it is rejected, or its TLS is terminated with certificates
  -- of this authority.
  pub data MitmHandler : Type 0 where
    rejects : MitmHandler
    terminates : Pair → Leaf → MitmHandler

  -- Lines 110 to 120, with `rejectMITMHandler` and `setupMITMHandler`.
  unfoldable pub mitm_handler : Bytes → Bytes → Result MitmHandler
  mitm_handler ca_key_path ca_cert_path =
      if bytes_eq ca_key_path [] || bytes_eq ca_cert_path []
      then ok rejects
      else elim (read_ca ca_key_path ca_cert_path) [
        | err e ↦ err e
        | ok (pair, leaf) ↦ ok (terminates pair leaf)
      ]

  -- The proxy as it is set up. `transport` is none for http.DefaultTransport; the certificates of a
  -- transport are none for the system's.
  pub record Proxy : Type 0 where
    pub mitm : Option MitmHandler
    pub transport : Option (Bool × Option (List Bytes))
    pub server : Server

  abbrev not_started : Server
  not_started = record { started = false; stopped = false }

  -- `NewProxy`
  unfoldable pub new_proxy : Bytes → Bytes → Bool → List Bytes → Result Proxy
  new_proxy ca_key_path ca_cert_path insecure_skip_verify trusted_certificate_paths =
      elim (mitm_handler ca_key_path ca_cert_path) [
        | err e ↦ err e
        | ok mitm ↦ elim (root_certificates lib.read_file trusted_certificate_paths) [
          | err e ↦ err e
          | ok roots ↦ ok (record {
            mitm = some mitm;
            transport = some (insecure_skip_verify, roots);
            server = not_started;
          })
        ]
      ]

  -- `NewReverseProxy`, which never fails.
  unfoldable pub new_reverse_proxy : Proxy
  new_reverse_proxy = record { mitm = none; transport = none; server = not_started }

-- What `Serve` does outside its own state, in order.
pub data Action : Type 0 where
  listens : Listen → Action
  serves : Action
  removes : Bytes → Action

-- the file that is removed when `Serve` returns, if it listens on one
abbrev pub cleanup : Listen → List Action
cleanup (unix_socket path) = removes path ∷ []
cleanup (tls addr crt key) = []
cleanup (tcp addr) = []

-- `Serve`: what it did, what it returned, and `started` while it serves and after it. `listen` is what
-- the call to listen returns, and `served` what the server does.
unfoldable pub serve :
    (listen : Listen → Option Error)
    → (served : Option (Error × Bool)) → Bytes
    → Bytes
    → Bytes
    → List Action × Option Error × Bool × Bool
serve listen served listen_addr crt_file key_file =
    elim (choose_listener listen_addr crt_file key_file) [
      | err e ↦ ([], some e, false, false)
      | ok l ↦ elim (listen l) [
        | some e ↦ (listens l ∷ [], some e, false, false)
        | none ↦ (listens l ∷ serves ∷ cleanup l, serve_result served, true, false)
      ]
    ]
