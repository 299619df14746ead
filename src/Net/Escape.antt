-- ===== src/Net/Escape.antt =====
-- url.QueryEscape, over bytes.
pub mod Laws
use jwtproxy.Common.{
  ℕ, ◌+◌, ◌/◌, ◌%◌, Bool, ◌==◌, ltb, leb, ◌&&◌, ◌||◌, List, [], ◌∷◌, Bytes, if◌then◌else◌,
}

-- Letters, digits and the bytes "-", ".", "_" and "~".
unfoldable pub is_unreserved : ℕ → Bool
is_unreserved c =
    leb 48 c && leb c 57
    || leb 65 c && leb c 90
    || leb 97 c && leb c 122
    || c == 45
    || c == 46
    || c == 95
    || c == 126

-- an upper-case hexadecimal digit
unfoldable pub hex_digit : ℕ → ℕ
hex_digit n = if ltb n 10 then 48 + n else 55 + n

unfoldable pub query_escape : Bytes → Bytes
query_escape [] = []
query_escape (c ∷ s) =
    let rest = query_escape s in
    if is_unreserved c
    then c ∷ rest
    else if c == 32
    then 43 ∷ rest
    else 37 ∷ hex_digit (c / 16) ∷ hex_digit (c % 16) ∷ rest
