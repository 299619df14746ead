-- ===== src/Common/Affix.antt =====
-- Prefixes and suffixes of byte strings, as in Go's package strings.
use Prim.Native.Nat.{ℕ}
use mathlib.Core.Path.{◌≡◌, refl, ap}
use mathlib.Core.Bool.{Bool, true, false, ◌&&◌}
use mathlib.Core.List.{[], ◌∷◌, ◌++◌}
use native.Mathlib.Omega.{arith}
use jwtproxy.Common.Tests.{◌==◌, ==_iff, if◌then◌else◌}
use jwtproxy.Common.Strings.{Bytes}

-- strings.HasPrefix
unfoldable pub has_prefix : Bytes → Bytes → Bool
has_prefix s [] = true
has_prefix [] (c ∷ p) = false
has_prefix (d ∷ s) (c ∷ p) = d == c && has_prefix s p

unfoldable pub drop_prefix : Bytes → Bytes → Bytes
drop_prefix s [] = s
drop_prefix [] (c ∷ p) = []
drop_prefix (d ∷ s) (c ∷ p) = drop_prefix s p

-- strings.TrimPrefix
unfoldable pub trim_prefix : Bytes → Bytes → Bytes
trim_prefix s p = if has_prefix s p then drop_prefix s p else s

-- strings.HasSuffix and strings.TrimSuffix for a suffix of one byte
unfoldable pub ends_with : ℕ → Bytes → Bool
ends_with c [] = false
ends_with c (d ∷ []) = d == c
ends_with c (d ∷ e ∷ s) = ends_with c (e ∷ s)

unfoldable pub trim_last : ℕ → Bytes → Bytes
trim_last c [] = []
trim_last c (d ∷ []) = if d == c then [] else d ∷ []
trim_last c (d ∷ e ∷ s) = d ∷ trim_last c (e ∷ s)

pub ends_with_append :
    (c : ℕ) (s t : Bytes) → ends_with c s ≡ true → s ++ t ≡ trim_last c s ++ c ∷ t
unfolding ends_with trim_last
ends_with_append c [] t h = ground arith
ends_with_append c (d ∷ []) t h = ground (arith, ==_iff d c)
ends_with_append c (d ∷ e ∷ s) t h = ap (λ r. d ∷ r) (ends_with_append c (e ∷ s) t h)

pub ends_with_not : (c : ℕ) (s : Bytes) → ends_with c s ≡ false → trim_last c s ≡ s
unfolding ends_with trim_last
ends_with_not c [] h = refl
ends_with_not c (d ∷ []) h = ground arith
ends_with_not c (d ∷ e ∷ s) h = ap (λ r. d ∷ r) (ends_with_not c (e ∷ s) h)
