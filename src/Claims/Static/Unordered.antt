-- ===== src/Claims/Static/Unordered.antt =====
-- What jwt/claims/static/static.go requires, without the order of Go's map: lists of required claims up
-- to a permutation.
use std.Quotient.{◌/◌, cls, eq/, /_set, /_rec, /_rec₂, /_elim_prop₂, /_elim_prop₃}
use mathlib.Core.Bool.{Bool-set}
use mathlib.Core.List.{Perm, Permᴰ, perm_append_comm, append_assoc}
use mathlib.Core.List.Permᴰ.{nil, cons, swap, trans}
use mathlib.Core.Logic.{∥∥₁_elim}
use mathlib.Core.List.Perm
use jwtproxy.Common.{
  ◌≡◌, refl, Bool, true, false, ◌&&◌, ◌++◌, Option, none, some, List, [], ◌∷◌, Bytes, arith, ◌∙◌,
  lookup,
}
use jwtproxy.Common.Result.{Error}
use jwtproxy.Value.{Value, Claims, deep_equal}
use jwtproxy.Claims.Static.{check_claims}

abbrev Required : Type 0
Required = List (Bytes × Value)

abbrev Permuted : Required → Required → Type 0
Permuted = Perm

abbrev pub Requirements : Type 0
Requirements = Required / Permuted

-- the options of one verifier
abbrev pub of_options : Required → Requirements
of_options = cls

-- nil, for an error
unfoldable pub is_nil : Option Error → Bool
is_nil none = true
is_nil (some e) = false

-- the claims have an equal value under this name
unfoldable pub holds : Claims → Bytes × Value → Bool
holds claims (name, required_value) = elim (lookup name claims) [
  | none ↦ false
  | some found ↦ deep_equal found required_value
]

unfoldable pub met : Claims → Required → Bool
met claims [] = true
met claims (r ∷ rs) = holds claims r && met claims rs

met-perm_data : (claims : Claims) {rs ts : Required} → Permᴰ rs ts → met claims rs ≡ met claims ts
unfolding met
met-perm_data claims nil = refl
met-perm_data claims (cons e p) = rw (e, met-perm_data claims p) refl
met-perm_data claims (swap e f) = rw (e, f) (ground arith)
met-perm_data claims (trans p q) = met-perm_data claims p ∙ met-perm_data claims q

pub met-perm : (claims : Claims) (rs ts : Required) → Perm rs ts → met claims rs ≡ met claims ts
met-perm claims rs ts p = ∥∥₁_elim p (Bool-set _ _) (met-perm_data claims)

met-append :
    (claims : Claims) (rs ts : Required) → met claims (rs ++ ts) ≡ (met claims rs && met claims ts)
unfolding met
met-append claims [] ts = refl
met-append claims (r ∷ rs) ts = ground (arith, met-append claims rs ts)

-- Whether claims meet the requirements.
unfoldable pub passes : Requirements → Claims → Bool
passes r claims = /_rec Bool-set (met claims) (met-perm claims) r

met-check_claims :
    (claims : Claims) (options : Required)
    → met claims options ≡ is_nil (check_claims options claims)
unfolding met holds check_claims is_nil
met-check_claims claims [] = refl
met-check_claims claims ((name, v) ∷ options) = ground (arith, met-check_claims claims options)

pub passes-of_options :
    (claims : Claims) (options : Required)
    → passes (of_options options) claims ≡ is_nil (check_claims options claims)
unfolding passes /_rec
passes-of_options = met-check_claims

swap_append : (rs ss ts : Required) → Perm (rs ++ (ss ++ ts)) (ss ++ (rs ++ ts))
swap_append rs ss ts =
    rw (← append_assoc rs ss ts, ← append_assoc ss rs ts)
      (Perm.append_right ts (perm_append_comm rs ss))

-- The requirements of two verifiers together.
unfoldable pub join : Requirements → Requirements → Requirements
join =
    /_rec₂ /_set (λ rs ts. cls (rs ++ ts))
      (λ rs rs' ts p. eq/ (rs ++ ts) (rs' ++ ts) (Perm.append_right ts p))
      (λ rs ts ts' p. eq/ (rs ++ ts) (rs ++ ts') (Perm.append_left rs p))

pub join_swap : (r s t : Requirements) → join r (join s t) ≡ join s (join r t)
unfolding join /_rec₂ /_rec
join_swap =
    /_elim_prop₃ (λ r s t. join r (join s t) ≡ join s (join r t)) (λ r s t. /_set _ _)
      (λ rs ss ts. eq/ (rs ++ (ss ++ ts)) (ss ++ (rs ++ ts)) (swap_append rs ss ts))

-- Claims meet both exactly if they meet each.
pub passes-join :
    (claims : Claims) (r s : Requirements)
    → passes (join r s) claims ≡ (passes r claims && passes s claims)
unfolding passes join /_rec₂ /_rec
passes-join claims =
    /_elim_prop₂ (λ r s. passes (join r s) claims ≡ (passes r claims && passes s claims))
      (λ r s. Bool-set _ _) (met-append claims)
