-- ===== src/Proxy/Verifier/Required/Tests.antt =====
-- Two static verifiers, asked in either order.
use std.Quotient.{/_rec, /_rec₂}
use mathlib.Core.List.Perm
use jwtproxy.Common.{◌≡◌, refl, false, List, [], ◌∷◌, Bytes, codes, lookup, bytes_eq}
use jwtproxy.Http.{Request}
use jwtproxy.Value.{Value, str, Claims, deep_equal}
use jwtproxy.Claims.Static.{handle, construct, check_claims}
use jwtproxy.Claims.Static.Unordered.{is_nil, passes, join, met, holds}
use jwtproxy.Proxy.Verifier.{run_verifiers}
use jwtproxy.Proxy.Verifier.Required.{static_verifiers, requirements, static_refines}

abbrev plain : Request
plain = record {
  method = codes "GET";
  url = record {
    scheme = codes "http";
    host = codes "a.b";
    path = codes "/";
    raw_query = [];
    rest = [];
  };
  header = [];
  body = [];
}

abbrev issuer : List (Bytes × Value)
issuer = (codes "iss", str (codes "jwtproxy")) ∷ []

abbrev group : List (Bytes × Value)
group = (codes "group", str (codes "admin")) ∷ []

-- the group is another one
abbrev signed : Claims
signed = (codes "group", str (codes "guest")) ∷ (codes "iss", str (codes "jwtproxy")) ∷ []

refused : is_nil (run_verifiers (static_verifiers (group ∷ issuer ∷ [])) plain signed tt).0 ≡ false
unfolding run_verifiers static_verifiers handle construct check_claims is_nil lookup bytes_eq
    deep_equal
refused = refl

static_refines_example :
    (is_nil (run_verifiers (static_verifiers (group ∷ issuer ∷ [])) plain signed tt).0
      ≡ passes (requirements (issuer ∷ group ∷ [])) signed)
    × ((run_verifiers (static_verifiers (group ∷ issuer ∷ [])) plain signed tt).1 ≡ tt)
static_refines_example =
    static_refines (issuer ∷ group ∷ []) (group ∷ issuer ∷ []) plain signed tt
      (Perm.swap issuer group [])

not_met : passes (requirements (issuer ∷ group ∷ [])) signed ≡ false
unfolding passes requirements join met holds lookup bytes_eq deep_equal /_rec /_rec₂
not_met = refl
