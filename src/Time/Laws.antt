-- ===== src/Time/Laws.antt =====
-- Orders of instants, as the proofs use them.
use jwtproxy.Common.{◌↔◌, ◌⊎◌, ◌+◌, ◌≡◌, false, arith}
use jwtproxy.Common.Int.{
  +ℤ_parts, -ℤ_parts, ltb_ℤ, ltb_ℤ→ge, ge→ltb_ℤ, ℤ, pos, negsuc, ◌+ℤ◌, ◌-ℤ◌, ◌≤ℤ◌, ◌<ℤ◌, pos_part,
  neg_part,
}
use jwtproxy.Time.{
  Time, Duration, max_duration, min_duration, add, sub, negate, unix, from_unix, seconds, after,
}

-- Rounding down to a second loses less than a second.
pub from_unix-unix_le : (t : Time) → from_unix (unix t) ≤ℤ t
unfolding from_unix unix
from_unix-unix_le (pos n) = omega arith
from_unix-unix_le (negsuc n) = omega arith

pub lt_from_unix-unix : (t : Time) → t <ℤ add (from_unix (unix t)) (seconds 1)
unfolding from_unix unix add
lt_from_unix-unix (pos n) = ground arith
lt_from_unix-unix (negsuc n) = ground arith

-- The operations by their parts, for `omega`.
pub add_parts :
    (t : Time) (d : Duration)
    → pos_part (add t d) + neg_part t + neg_part d ≡ neg_part (add t d) + pos_part t + pos_part d
unfolding add
add_parts t d = +ℤ_parts t d

pub negate_parts :
    (d : Duration)
    → min_duration <ℤ d
    → pos_part (negate d) + pos_part d ≡ neg_part (negate d) + neg_part d
unfolding negate
negate_parts d h = ground (arith, -ℤ_parts (pos 0) d)

-- `iat.Add(-maxSkew).After(now)` and `exp.Sub(iat) > maxTTL`, without wrapping and saturation.
pub after-add-negate :
    (iat now : Time) (skew : Duration)
    → min_duration <ℤ skew
    → (after (add iat (negate skew)) now ≡ false) ↔ (iat ≤ℤ now +ℤ skew)
after-add-negate iat now skew h =
    let a = add_parts iat (negate skew) in
    let n = negate_parts skew h in
    let p = +ℤ_parts now skew in
    (
      λ e. omega (arith, a, n, p, ltb_ℤ→ge now (add iat (negate skew)) e),
      λ le. ge→ltb_ℤ now (add iat (negate skew)) (omega (arith, a, n, p)),
    )

pub sub-gt :
    (exp iat : Time) (ttl : Duration)
    → min_duration ≤ℤ ttl
    → ttl <ℤ max_duration
    → (ltb_ℤ ttl (sub exp iat) ≡ false) ↔ (exp ≤ℤ iat +ℤ ttl)
unfolding sub
sub-gt exp iat ttl lo hi =
    let m = -ℤ_parts exp iat in
    let p = +ℤ_parts iat ttl in (λ e. ground (arith, m, p), λ le. ground (arith, m, p))

-- A difference that is not too large is exact, or is the least duration.
pub sub_cases :
    (t u : Time) → t ≤ℤ u +ℤ max_duration → (sub t u ≡ t -ℤ u) ⊎ (sub t u ≡ min_duration)
unfolding sub
sub_cases t u h = ground (arith, -ℤ_parts t u, +ℤ_parts u max_duration)

pub sub_exact : (t u : Time) → u ≤ℤ t → t ≤ℤ u +ℤ max_duration → sub t u ≡ t -ℤ u
unfolding sub
sub_exact t u lo hi = ground (arith, -ℤ_parts t u, +ℤ_parts u max_duration)

pub sub_past : (t u : Time) → t ≤ℤ u → sub t u ≤ℤ pos 0
unfolding sub
sub_past t u h = ground (arith, -ℤ_parts t u)

-- A later second is a second later.
pub from_unix_step : (a b : ℤ) → a <ℤ b → from_unix a +ℤ seconds 1 ≤ℤ from_unix b
unfolding from_unix ◌+ℤ◌
from_unix_step a b h = ground arith
