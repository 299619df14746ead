-- ===== src/Time.antt =====
-- Go's time.Time and time.Duration as the program uses them: instants are nanoseconds since 1970,
-- durations are nanoseconds that fit an int64. Instants do not overflow; differences saturate.
pub mod Laws
pub mod Ticking
use jwtproxy.Common.{◌≡◌, ℕ, ◌+◌, ◌^◌, ◌-◌, ◌*◌, Bool, if◌then◌else◌}
use jwtproxy.Common.Int.{ℤ, pos, negsuc, ◌+ℤ◌, ◌-ℤ◌, ◌≤ℤ◌, ltb_ℤ, div_floor}

abbrev pub Time : Type 0
Time = ℤ

abbrev pub Duration : Type 0
Duration = ℤ

abbrev pub max_duration : Duration
max_duration = pos (2 ^ 63 - 1)

abbrev pub min_duration : Duration
min_duration = negsuc (2 ^ 63 - 1)

abbrev pub ns_per_second : ℕ
ns_per_second = 1000000000

abbrev pub seconds : ℕ → Duration
seconds n = pos (n * ns_per_second)

abbrev pub minutes : ℕ → Duration
minutes n = seconds (60 * n)

-- `t.Before(u)` and `t.After(u)`
abbrev pub before : Time → Time → Bool
before t u = ltb_ℤ t u

abbrev pub after : Time → Time → Bool
after t u = ltb_ℤ u t

-- `t.Add(d)`
unfoldable pub add : Time → Duration → Time
unfolding ◌+ℤ◌
add t d = t +ℤ d

-- `t.Sub(u)`
unfoldable pub sub : Time → Time → Duration
unfolding ◌-ℤ◌
sub t u =
    let d = t -ℤ u in
    if ltb_ℤ max_duration d then max_duration else if ltb_ℤ d min_duration then min_duration else d

-- `-d` on an int64: the least one is its own negative.
unfoldable pub negate : Duration → Duration
unfolding ◌-ℤ◌
negate d = if ltb_ℤ d (negsuc (2 ^ 63 - 2)) then d else pos 0 -ℤ d

-- `t.Unix()`, whole seconds rounded down, and `time.Unix(s, 0)`
unfoldable pub unix : Time → ℤ
unfolding div_floor
unix t = div_floor t ns_per_second

unfoldable pub from_unix : ℤ → Time
from_unix (pos n) = pos (n * ns_per_second)
from_unix (negsuc n) = negsuc (n * ns_per_second + (ns_per_second - 1))

-- `time.Now()`: a state that remembers the last reading, and readings that never go back.
pub record Clock : Type 1 where
  pub State : Type 0
  pub read : State → Time × State
  pub last : State → Time
  pub read_last : (c : State) → last (read c).1 ≡ (read c).0
  pub monotone : (c : State) → last c ≤ℤ (read c).0
