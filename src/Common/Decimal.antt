-- ===== src/Common/Decimal.antt =====
-- Numbers in decimal, as fmt and strconv print them.
use Prim.Native.Nat.{ℕ, zero, suc, ◌+◌, ◌/◌, ◌%◌}
use mathlib.Core.List.{[], ◌∷◌, ◌++◌}
use jwtproxy.Common.Tests.{ltb, if◌then◌else◌}
use jwtproxy.Common.Strings.{Bytes}
use jwtproxy.Common.Int.{ℤ, pos, negsuc}

-- One digit a round; a number has fewer digits than its value and one.
abbrev digits : ℕ → ℕ → Bytes
digits zero n = []
digits (suc fuel) n =
    let rest = digits fuel (n / 10) in
    if ltb n 10 then (48 + n) ∷ [] else rest ++ (48 + n % 10) ∷ []

unfoldable pub decimal : ℕ → Bytes
decimal n = digits (suc n) n

-- strconv.FormatInt in base 10
unfoldable pub format_int : ℤ → Bytes
format_int (pos n) = decimal n
format_int (negsuc n) = 45 ∷ decimal (suc n)
