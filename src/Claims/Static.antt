-- ===== src/Claims/Static.antt =====
-- `Static.Handle` of jwt/claims/static/static.go: every required claim is there, with the value that
-- the configuration gives.
pub mod Laws
pub mod Unordered
mod Tests
use jwtproxy.Common.{
  Bool, not, ◌++◌, Option, none, some, List, [], ◌∷◌, Bytes, codes, lookup, if◌then◌else◌,
}
use jwtproxy.Common.Result.{Error, message}
use jwtproxy.Http.{Request}
use jwtproxy.Value.{Value, Claims, deep_equal}

-- `requiredClaims`, in the order in which `range` happens to visit it
pub record Static : Type 0 where
  pub required_claims : List (Bytes × Value)

unfoldable pub check_claims : List (Bytes × Value) → Claims → Option Error
check_claims [] claims = none
check_claims ((name, required_value) ∷ rest) claims =
    let more = check_claims rest claims in
    elim (lookup name claims) [
      | none ↦ some (message (codes "Required claim not found: " ++ name))
      | some found ↦
          if not (deep_equal found required_value)
          then some (message (codes "Claim did not have the required value: " ++ name))
          else more
    ]

-- The request is not looked at. `none` is nil.
unfoldable pub handle : Static → Request → Claims → Option Error
unfolding check_claims
handle scv req claims = check_claims scv.required_claims claims

-- `constructor`: the options are the required claims.
unfoldable pub construct : List (Bytes × Value) → Static
construct options = record { required_claims = options }
