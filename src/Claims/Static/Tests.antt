-- ===== src/Claims/Static/Tests.antt =====
-- Runs of the static claims verifier.
use jwtproxy.Common.{◌≡◌, refl, ◌≢◌, ◌↔◌, [], ◌∷◌, none, some, Bytes, codes, All, lookup, bytes_eq}
use jwtproxy.Common.Int.{pos}
use jwtproxy.Common.Result.{message}
use jwtproxy.Http.{Request}
use jwtproxy.Value.{Value, str, int, float, Claims, deep_equal}
use jwtproxy.Claims.Static.{handle, construct}
use jwtproxy.Claims.Static.Laws.{Holds, handle-eq-none_iff, handle-yaml_only}

abbrev plain : Request
plain = record {
  method = codes "GET";
  url = record {
    scheme = codes "http";
    host = codes "a.b";
    path = codes "/";
    raw_query = [];
    rest = [];
  };
  header = [];
  body = [];
}

abbrev issuer : Bytes × Value
issuer = (codes "iss", str (codes "jwtproxy"))

abbrev group : Bytes × Value
group = (codes "group", str (codes "admin"))

abbrev signed : Claims
signed = group ∷ issuer ∷ (codes "level", float 0x3ff0000000000000) ∷ []

wrong_value :
    handle (construct ((codes "iss", str (codes "other")) ∷ [])) plain signed
    ≡ some (message (codes "Claim did not have the required value: iss"))
unfolding handle construct lookup bytes_eq deep_equal
wrong_value = refl

handle-eq-none_iff_example :
    (handle (construct (issuer ∷ group ∷ [])) plain signed ≡ none)
    ↔ All (Holds signed) (construct (issuer ∷ group ∷ [])).required_claims
handle-eq-none_iff_example = handle-eq-none_iff (construct (issuer ∷ group ∷ [])) plain signed

-- "level: 1" in the options against `"level": 1` in the token
handle-yaml_only_example :
    handle (construct ((codes "level", int (pos 1)) ∷ [])) plain signed ≢ none
unfolding construct lookup bytes_eq
handle-yaml_only_example =
    handle-yaml_only (construct ((codes "level", int (pos 1)) ∷ [])) plain signed (codes "level")
      (int (pos 1)) (tt, (tt, (tt, tt))) tt refl
