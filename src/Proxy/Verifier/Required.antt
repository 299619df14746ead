-- ===== src/Proxy/Verifier/Required.antt =====
-- The claims verifiers of jwt/proxy_handlers.go where all of them are static: what they require together.
mod Tests
use std.Quotient.{/_set}
use mathlib.Core.List.{Perm, Permᴰ}
use mathlib.Core.List.Permᴰ.{nil, cons, swap, trans}
use mathlib.Core.Logic.{∥∥₁_elim}
use jwtproxy.Common.{
  ◌∙◌, ◌≡◌, refl, sym, inl, inr, Bool, true, false, ◌&&◌, Option, none, some, Option-cases, List,
  [], ◌∷◌, Bytes, arith,
}
use jwtproxy.Http.{Request}
use jwtproxy.Value.{Value, Claims}
use jwtproxy.Claims.Static.{handle, construct, check_claims}
use jwtproxy.Claims.Static.Unordered.{
  Requirements, of_options, is_nil, passes, join, join_swap, passes-join, passes-of_options,
}
use jwtproxy.Proxy.Verifier.{Handle, run_verifiers}

-- A static verifier as the proxy calls it: it has no state.
abbrev pub static_verifier : {W : Type 0} → List (Bytes × Value) → Handle W
static_verifier options r claims w = (handle (construct options) r claims, w)

-- the verifiers that the configuration lists, by their options
unfoldable pub static_verifiers : {W : Type 0} → List (List (Bytes × Value)) → List (Handle W)
static_verifiers [] = []
static_verifiers (options ∷ rest) = static_verifier options ∷ static_verifiers rest

unfoldable pub requirements : List (List (Bytes × Value)) → Requirements
requirements [] = of_options []
requirements (options ∷ rest) = join (of_options options) (requirements rest)

requirements-perm_data :
    {xs ys : List (List (Bytes × Value))} → Permᴰ xs ys → requirements xs ≡ requirements ys
unfolding requirements
requirements-perm_data nil = refl
requirements-perm_data (cons e p) = rw (e, requirements-perm_data p) refl
requirements-perm_data {xs = a ∷ b ∷ l} (swap e f) =
    rw (← e, ← f) (join_swap (of_options a) (of_options b) (requirements l))
requirements-perm_data (trans p q) = requirements-perm_data p ∙ requirements-perm_data q

requirements-perm :
    (xs ys : List (List (Bytes × Value))) → Perm xs ys → requirements xs ≡ requirements ys
requirements-perm xs ys p = ∥∥₁_elim p (/_set _ _) requirements-perm_data

static_in_order :
    {W : Type 0} (config : List (List (Bytes × Value))) (r : Request) (claims : Claims) (w : W)
    → (is_nil (run_verifiers (static_verifiers config) r claims w).0
        ≡ passes (requirements config) claims)
      × ((run_verifiers (static_verifiers config) r claims w).1 ≡ w)
unfolding run_verifiers static_verifiers requirements is_nil handle construct check_claims
static_in_order [] r claims w = (sym (passes-of_options claims []), refl)
static_in_order (options ∷ rest) r claims w =
    let (decided, kept) = static_in_order rest r claims w in
    let joint = passes-join claims (of_options options) (requirements rest) in
    let first = passes-of_options claims options in
    elim (Option-cases (check_claims options claims)) [
      | inl e ↦ rw (joint, first, e, run_verifiers) (decided, kept)
      | inr (x, e) ↦ rw (joint, first, e, run_verifiers) (refl, refl)
    ]

-- The static verifiers that a proxy asks, one after another in any order, pass exactly the claims that
-- meet their joint requirements, which are lists of required claims up to a permutation; and they
-- change nothing.
pub static_refines :
    {W : Type 0} (listed asked : List (List (Bytes × Value))) (r : Request) (claims : Claims)
    (w : W)
    → Perm asked listed
    → (is_nil (run_verifiers (static_verifiers asked) r claims w).0
        ≡ passes (requirements listed) claims)
      × ((run_verifiers (static_verifiers asked) r claims w).1 ≡ w)
static_refines listed asked r claims w p =
    let refined = static_in_order asked r claims w in
    rw (requirements-perm asked listed p) at refined
