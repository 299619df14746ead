-- ===== src/Proxy/Server.antt =====
-- `Serve` and `Stop` of proxy/proxy.go, and the transport of the forward proxy. The servers themselves,
-- the listeners and files are parameters.
pub mod Laws
mod Tests
use jwtproxy.Common.{
  Bool, true, false, not, ◌&&◌, Option, none, some, List, [], ◌∷◌, ◌++◌, Bytes, codes, bytes_eq,
  if◌then◌else◌,
}
use jwtproxy.Common.Affix.{has_prefix, trim_prefix}
use jwtproxy.Common.Result.{Error, Result, ok, err, message, text, ◌>>=◌}

-- What is listened on: net.Listen("unix", …), graceful's ListenTLS, or net.Listen("tcp", …).
pub data Listen : Type 0 where
  unix_socket : Bytes → Listen
  tls : Bytes → Bytes → Bytes → Listen
  tcp : Bytes → Listen

abbrev is_set : Bytes → Bool
is_set s = not (bytes_eq s [])

-- Lines 55 to 84, up to the call: the address, the certificate file and the key file.
unfoldable pub choose_listener : Bytes → Bytes → Bytes → Result Listen
choose_listener listen_addr crt_file key_file =
    if has_prefix listen_addr (codes "unix:")
    then (if is_set crt_file && is_set key_file
        then err (
            message
              (codes "Proxy is configured to terminate TLS but proxy listens on an UNIX socket."))
        else ok (unix_socket (trim_prefix listen_addr (codes "unix:"))))
    else if is_set crt_file && is_set key_file
    then ok (tls listen_addr crt_file key_file)
    else ok (tcp listen_addr)

-- the flag `started`, and whether the server was told to stop
pub record Server : Type 0 where
  pub started : Bool
  pub stopped : Bool

-- The channel that `Stop` returns: stop.AlreadyDone, or the server's own.
pub data StopChannel : Type 0 where
  already_done : StopChannel
  server_stopped : StopChannel

-- `Stop`
unfoldable pub stop : Server → StopChannel × Server
stop proxy =
    if proxy.started
    then (server_stopped, record proxy { stopped = true })
    else (already_done, proxy)

-- How `Serve` returns once the server has: an error of the accept that a stop breaks off is none.
unfoldable pub serve_result : Option (Error × Bool) → Option Error
serve_result none = none
serve_result (some (e, is_accept)) = if is_accept then none else some e

-- The certificates of `setupClientTransport`: none are the system's. The first file that cannot be
-- read is the error.
unfoldable pub load_certificates : (Bytes → Result Bytes) → List Bytes → Result (List Bytes)
load_certificates read_file [] = ok []
load_certificates read_file (path ∷ paths) =
    let rest = load_certificates read_file paths in
    elim (read_file path) [
      | err e ↦
          err (message (codes "Could not load certificate '" ++ path ++ codes "': " ++ text e))
      | ok certificate ↦ elim rest [ err e ↦ err e | ok cs ↦ ok (certificate ∷ cs) ]
    ]

unfoldable pub root_certificates :
    (Bytes → Result Bytes) → List Bytes → Result (Option (List Bytes))
root_certificates read_file [] = ok none
root_certificates read_file (path ∷ paths) = elim (load_certificates read_file (path ∷ paths)) [
  | err e ↦ err e
  | ok cs ↦ ok (some cs)
]
