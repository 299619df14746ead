-- ===== src/Proxy/Router/Tests.antt =====
-- Paths that the router makes.
use jwtproxy.Common.{◌≡◌, refl, codes}
use jwtproxy.Common.Affix.{has_prefix, ends_with}
use jwtproxy.Proxy.Router.{single_joining_slash}

joined : single_joining_slash (codes "/a/") (codes "/b") ≡ codes "/a/b"
unfolding single_joining_slash has_prefix ends_with
joined = refl

bare : single_joining_slash (codes "/a") (codes "b") ≡ codes "/a/b"
unfolding single_joining_slash has_prefix ends_with
bare = refl
