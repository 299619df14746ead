-- ===== src/Claims/Static/Laws.antt =====
-- What a static verifier accepts.
use mathlib.Core.List.{Perm}
use mathlib.Core.Logic.{∥∥₁_elim}
use jwtproxy.Common.{
  true, ◌≡◌, refl, inl, inr, ◌≢◌, ◌↔◌, none, some, List, [], ◌∷◌, Bytes, lookup, lookup-All, All,
  arith, Option-cases, All-perm_data,
}
use jwtproxy.Http.{Request}
use jwtproxy.Value.{Value, Claims, deep_equal}
use jwtproxy.Value.Laws.{IsJson, IsYamlOnly, deep_equal-yaml_only}
use jwtproxy.Claims.Static.{Static, check_claims, handle, construct}

-- The claims hold the required value under this name.
abbrev pub Holds : Claims → Bytes × Value → Type 0
Holds claims r = (v : Value) × (lookup r.0 claims ≡ some v) × (deep_equal v r.1 ≡ true)

check_claims_sound :
    (rs : List (Bytes × Value)) (claims : Claims)
    → check_claims rs claims ≡ none
    → All (Holds claims) rs
unfolding check_claims
check_claims_sound [] claims h = tt
check_claims_sound ((name, v) ∷ rs) claims h = elim (Option-cases (lookup name claims)) [
  | inl e ↦ cc (rw (e, check_claims) at h)
  | inr (found, e) ↦ ((found, e, ground arith), check_claims_sound rs claims (ground arith))
]

check_claims_complete :
    (rs : List (Bytes × Value)) (claims : Claims)
    → All (Holds claims) rs
    → check_claims rs claims ≡ none
unfolding check_claims
check_claims_complete [] claims h = refl
check_claims_complete ((name, v) ∷ rs) claims ((found, e, same), h) =
    ground (arith, check_claims_complete rs claims h)

-- A static verifier passes exactly the claims that hold every required value.
pub handle-eq-none_iff :
    (scv : Static) (req : Request) (claims : Claims)
    → (handle scv req claims ≡ none) ↔ All (Holds claims) scv.required_claims
unfolding handle
handle-eq-none_iff scv req claims = (
  check_claims_sound scv.required_claims claims,
  check_claims_complete scv.required_claims claims,
)

pub check_claims-perm :
    {rs ts : List (Bytes × Value)} (claims : Claims)
    → Perm rs ts
    → check_claims rs claims ≡ none
    → check_claims ts claims ≡ none
check_claims-perm {rs = rs} {ts = ts} claims p h = ∥∥₁_elim p (hlevel) λ d.
    check_claims_complete ts claims
      (All-perm_data (Holds claims) d (check_claims_sound rs claims h))

-- Go visits the required claims in no fixed order; whether the verifier passes does not depend on it.
handle-perm :
    {rs ts : List (Bytes × Value)} (req : Request) (claims : Claims)
    → Perm rs ts
    → handle (construct rs) req claims ≡ none
    → handle (construct ts) req claims ≡ none
unfolding handle construct
handle-perm req claims p h = check_claims-perm claims p h

not-Holds :
    (claims : Claims) (name : Bytes) (v : Value)
    → All (λ e. IsJson e.1) claims
    → IsYamlOnly v
    → ¬ Holds claims (name, v)
not-Holds claims name v json yaml (w, found, same) =
    cc (same, deep_equal-yaml_only w v (lookup-All (λ _ u. IsJson u) name w claims json found) yaml)

-- A requirement that yaml.v2 decodes to a whole number or to a nested mapping is met by no claims that
-- encoding/json decodes: every request is refused.
pub handle-yaml_only :
    (scv : Static) (req : Request) (claims : Claims) (name : Bytes) (v : Value)
    → All (λ e. IsJson e.1) claims
    → IsYamlOnly v
    → lookup name scv.required_claims ≡ some v
    → handle scv req claims ≢ none
unfolding handle
handle-yaml_only scv req claims name v json yaml required passed =
    not-Holds claims name v json yaml (
      lookup-All (λ k u. Holds claims (k, u)) name v scv.required_claims
        (check_claims_sound scv.required_claims claims passed) required)
