-- ===== src/Proxy/Server/Tests.antt =====
-- Listeners and certificates of concrete configurations.
use jwtproxy.Common.{◌≡◌, refl, some, [], ◌∷◌, Bytes, codes, bytes_eq}
use jwtproxy.Common.Affix.{has_prefix, drop_prefix, trim_prefix}
use jwtproxy.Common.Result.{Result, ok}
use jwtproxy.Proxy.Server.{unix_socket, tcp, choose_listener, load_certificates, root_certificates}

-- A certificate without its key is served without TLS.
half : choose_listener (codes ":8082") (codes "a.crt") [] ≡ ok (tcp (codes ":8082"))
unfolding choose_listener has_prefix bytes_eq
half = refl

socket : choose_listener (codes "unix:/s") [] [] ≡ ok (unix_socket (codes "/s"))
unfolding choose_listener has_prefix bytes_eq drop_prefix trim_prefix
socket = refl

abbrev read_file : Bytes → Result Bytes
read_file path = ok path

both :
    root_certificates read_file (codes "a" ∷ codes "b" ∷ [])
    ≡ ok (some (codes "a" ∷ codes "b" ∷ []))
unfolding root_certificates load_certificates
both = refl
