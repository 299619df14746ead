-- ===== src/Proxy/Forward/Laws/Tests.antt =====
-- Proxies over files whose contents are their names.
use jwtproxy.Common.{◌≡◌, refl, true, false, none, some, [], ◌∷◌, Bytes, codes, bytes_eq}
use jwtproxy.Common.Affix.{has_prefix, drop_prefix, trim_prefix}
use jwtproxy.Common.Result.{ok}
use jwtproxy.Proxy.Server.{unix_socket, choose_listener, serve_result, root_certificates}
use jwtproxy.Proxy.Forward.{
  CaLib, Proxy, terminates, listens, serves, removes, read_ca, mitm_handler, new_proxy, not_started,
  serve,
}

abbrev names : CaLib (Bytes × Bytes) Bytes
names = record {
  read_file = λ path. ok path;
  key_pair = λ cert key. ok (cert, key);
  parse_leaf = λ (p : Bytes × Bytes). ok p.0;
}

abbrev proxy : Proxy names
proxy = record {
  mitm = some (terminates (codes "crt", codes "key") (codes "crt"));
  transport = some (false, none);
  server = not_started names;
}

set_up : new_proxy names (codes "key") (codes "crt") false [] ≡ ok proxy
unfolding new_proxy mitm_handler read_ca root_certificates bytes_eq
set_up = refl

on_socket :
    serve (λ l. none) none (codes "unix:/s") [] []
    ≡ (listens (unix_socket (codes "/s")) ∷ serves ∷ removes (codes "/s") ∷ [], none, true, false)
unfolding serve choose_listener serve_result has_prefix drop_prefix trim_prefix bytes_eq
on_socket = refl
