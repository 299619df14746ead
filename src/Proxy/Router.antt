-- ===== src/Proxy/Router.antt =====
-- `newRouter` and `singleJoiningSlash` of jwt/proxy_handlers.go: where an accepted request is sent.
pub mod Laws
mod Tests
use jwtproxy.Common.{
  ℕ, Bool, true, false, not, ◌&&◌, ◌||◌, ◌++◌, List, [], ◌∷◌, Option, none, some, Bytes, codes,
  bytes_eq, if◌then◌else◌,
}
use jwtproxy.Common.Affix.{has_prefix, trim_prefix, ends_with}
use jwtproxy.Http.{Url, UrlLib, Request}

-- the byte "/"
abbrev pub slash : ℕ
slash = 47

-- `b[1:]`; it is only taken of strings that begin with a slash.
abbrev pub tail : Bytes → Bytes
tail [] = []
tail (c ∷ s) = s

unfoldable pub single_joining_slash : Bytes → Bytes → Bytes
single_joining_slash a b =
    let aslash = ends_with slash a in
    let bslash = has_prefix b (codes "/") in
    if aslash && bslash
    then a ++ tail b
    else if not aslash && not bslash
    then a ++ slash ∷ b
    else a ++ b

-- `ctx.RoundTripper`: goproxy's own, or the one of `newUnixRoundTripper`, which dials the socket at this
-- path whatever address it is given.
pub data RoundTripper : Type 0 where
  default_round_tripper : RoundTripper
  unix_round_tripper : Bytes → RoundTripper

unfoldable pub join_query : Bytes → Bytes → Bytes
join_query upstream_query query =
    if bytes_eq upstream_query [] || bytes_eq query []
    then upstream_query ++ query
    else upstream_query ++ codes "&" ++ query

-- The function that `newRouter` returns, on the request and the context's round tripper.
unfoldable pub route : UrlLib → Url → Request × RoundTripper → Request × RoundTripper
route lib upstream (r, rt) =
    if has_prefix (lib.print upstream) (codes "unix:")
    then (let sock_path = trim_prefix (lib.print upstream) (codes "unix:") in
        (
          record r { url = record r.url { scheme = codes "http"; host = sock_path } },
          unix_round_tripper sock_path,
        ))
    else (
      record r {
        url = record r.url {
          scheme = upstream.scheme;
          host = upstream.host;
          path = single_joining_slash upstream.path r.url.path;
          raw_query = join_query upstream.raw_query r.url.raw_query;
        };
      },
      rt,
    )
