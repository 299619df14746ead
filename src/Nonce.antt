-- ===== src/Nonce.antt =====
-- `generateNonce` of jwt/jwt.go with its constants: a nonce of n letters, six bits of the random
-- source to a letter, written from the last place to the first.
pub mod Digits
mod Tests
use jwtproxy.Common.{
  ℕ, zero, suc, ◌+◌, ◌-◌, ◌*◌, ◌/◌, ◌%◌, ◌^◌, Bool, List, [], ◌∷◌, Option, none, some, Bytes, codes,
  length, get_elem?, set, replicate, ltb, ◌==◌, if◌then◌else◌,
}
use jwtproxy.Common.Int.{ℤ, pos, negsuc}

abbrev pub nonce_bytes : Bytes
nonce_bytes = codes "abcdefghijklmnopqrstuvwxyzABCDEFGHIJKLMNOPQRSTUVWXYZ0123456789+/"

abbrev pub nonce_idx_bits : ℕ
nonce_idx_bits = 6

-- `1<<nonceIdxBits - 1`; masking by it is the remainder by the power of two
abbrev pub nonce_idx_mask : ℕ
nonce_idx_mask = 2 ^ nonce_idx_bits - 1

abbrev pub nonce_idx_max : ℕ
nonce_idx_max = 63 / nonce_idx_bits

-- `nonceBytes[idx]`; out of range it would panic, which the guard of the loop excludes
abbrev pub byte_at : Bytes → ℕ → ℕ
byte_at s i = elim (get_elem? s i) [ none ↦ 0 | some c ↦ c ]

-- the loop variables `cache` and `remain`, and the source
pub record Draw (S : Type 0) : Type 0 where
  pub cache : ℕ
  pub remain : ℕ
  pub source : S

-- `int(cache & nonceIdxMask)`
unfoldable pub index : {S : Type 0} → Draw S → ℕ
index d = d.cache % (nonce_idx_mask + 1)

-- `cache >>= nonceIdxBits; remain--`
unfoldable pub shift : {S : Type 0} → Draw S → Draw S
shift d = record d { cache = d.cache / 2 ^ nonce_idx_bits; remain = d.remain - 1 }

-- math/rand's source is a parameter: `int63` hands out the next value and the rest of the source.
module _ {S : Type 0} (int63 : S → ℕ × S) where
  unfoldable pub draw : S → Draw S
  draw s = let (v, s') = int63 s in record { cache = v; remain = nonce_idx_max; source = s' }

  -- `if remain == 0 { … }`
  unfoldable pub refill : Draw S → Draw S
  unfolding draw
  refill d = if d.remain == 0 then draw d.source else d

  -- The loop. `left` is `i + 1`, so the test `i >= 0` is `left != 0`; `none` is fuel that ran out.
  unfoldable pub nonce_loop : ℕ → ℕ → Draw S → Bytes → Option (Bytes × S)
  unfolding refill index shift
  nonce_loop zero left d b = none
  nonce_loop (suc fuel) left d b =
      let d' = refill d in
      let i = left - 1 in
      let written =
        nonce_loop fuel (left - 1) (shift d') (set b i (byte_at nonce_bytes (index d'))) in
      let skipped = nonce_loop fuel left (shift d') b in
      if left == 0
      then some (b, d.source)
      else if ltb (index d') (length nonce_bytes)
      then written
      else skipped

  -- `none` is the panic of `make` at a negative length, or fuel that ran out.
  unfoldable pub generate_nonce : ℤ → S → Option (Bytes × S)
  unfolding nonce_loop draw
  generate_nonce (negsuc n) s = none
  generate_nonce (pos n) s = nonce_loop (suc n) n (draw s) (replicate n 0)
