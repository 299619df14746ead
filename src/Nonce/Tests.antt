-- ===== src/Nonce/Tests.antt =====
-- Runs of `generateNonce`.
use jwtproxy.Common.{ℕ, suc, ◌+◌, ◌≡◌, refl, some, Bytes, codes, length, get_elem?}
use jwtproxy.Common.Int.{pos}
use jwtproxy.Nonce.{nonce_bytes, generate_nonce}
use jwtproxy.Nonce.Digits.{nonce_index, generate_nonce-letters}

-- A source that hands out its state and counts up.
abbrev counting : ℕ → ℕ × ℕ
counting s = (s, s + 199)

three_letters : generate_nonce counting (pos 3) 199 ≡ some (codes "adh", 398)
unfolding generate_nonce
three_letters = refl

generate_nonce-letters_example :
    (r : Bytes) × (s' : ℕ) × (generate_nonce counting (pos 12) 199 ≡ some (r, s'))
    × (length r ≡ 12)
    × ((i k : ℕ)
        → suc (i + k) ≡ 12
        → get_elem? r i ≡ get_elem? nonce_bytes (nonce_index counting 199 k))
generate_nonce-letters_example = generate_nonce-letters counting 12 199
