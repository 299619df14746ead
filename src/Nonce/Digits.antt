-- ===== src/Nonce/Digits.antt =====
-- What `generateNonce` returns: always a nonce, of the length asked for, its letters the successive
-- groups of six bits of the source's values, the first one in the last place.
use jwtproxy.Common.{
  ℕ, zero, suc, ◌+◌, ◌-◌, ◌/◌, ◌%◌, ◌^◌, ◌<◌, ◌≤◌, ◌≡◌, refl, sym, ap, ◌∙◌, true, [], ◌∷◌, some,
  Bytes, arith, length, get_elem?, set, replicate, length-replicate, ltb, suc-==-zero,
}
use native.Mathlib.Nat.{le_of_eq, div-one, div-div-eq-div-mul, pow-suc}
use native.Mathlib.Decide.{dec_lt}
use jwtproxy.Common.Int.{pos}
use jwtproxy.Nonce.{
  nonce_bytes, nonce_idx_max, byte_at, Draw, draw, refill, index, shift, nonce_loop, generate_nonce,
}

length-set : (b : Bytes) (i v : ℕ) → length (set b i v) ≡ length b
length-set [] i v = refl
length-set (x ∷ b) zero v = refl
length-set (x ∷ b) (suc i) v = ap suc (length-set b i v)

get_elem?-set_self : (b : Bytes) (i v : ℕ) → i < length b → get_elem? (set b i v) i ≡ some v
get_elem?-set_self [] i v h = absurd (omega arith)
get_elem?-set_self (x ∷ b) zero v h = refl
get_elem?-set_self (x ∷ b) (suc i) v h = get_elem?-set_self b i v (omega arith)

get_elem?-set_lt : (b : Bytes) (i j v : ℕ) → i < j → get_elem? (set b i v) j ≡ get_elem? b j
get_elem?-set_lt [] i j v h = refl
get_elem?-set_lt (x ∷ b) i zero v h = absurd (omega arith)
get_elem?-set_lt (x ∷ b) zero (suc j) v h = refl
get_elem?-set_lt (x ∷ b) (suc i) (suc j) v h = get_elem?-set_lt b i j v (omega arith)

get_elem?-byte_at : (b : Bytes) (i : ℕ) → i < length b → get_elem? b i ≡ some (byte_at b i)
get_elem?-byte_at [] i h = absurd (omega arith)
get_elem?-byte_at (x ∷ b) zero h = refl
get_elem?-byte_at (x ∷ b) (suc i) h = get_elem?-byte_at b i (omega arith)

module _ {S : Type 0} (int63 : S → ℕ × S) where
  -- The state of the draw after k letters, and the letter that it gives.
  unfoldable pub after : Draw S → ℕ → Draw S
  after d zero = d
  after d (suc k) = after (shift (refill int63 d)) k

  unfoldable pub letter : Draw S → ℕ → ℕ
  letter d k = byte_at nonce_bytes (index (refill int63 (after d k)))

  index_lt : (d : Draw S) → index d < 64
  unfolding index
  index_lt d = omega arith

  -- The guard `idx < len(nonceBytes)` always passes: there are as many letters as indices.
  index_in_range : (d : Draw S) → ltb (index d) (length nonce_bytes) ≡ true
  index_in_range d = ground (arith, index_lt d)

  record Filled (left : ℕ) (d : Draw S) (b r : Bytes) : Type 0 where
    pub same_length : length r ≡ length b
    pub kept : (j : ℕ) → left ≤ j → get_elem? r j ≡ get_elem? b j
    pub letters : (i k : ℕ) → suc (i + k) ≡ left → get_elem? r i ≡ some (letter d k)

  Filled-letters :
      (left : ℕ) (d : Draw S) (b r : Bytes)
      → suc left ≤ length b
      → Filled left (shift (refill int63 d)) (set b left (letter d 0)) r
      → (i k : ℕ) → suc (i + k) ≡ suc left
      → get_elem? r i ≡ some (letter d k)
  unfolding letter after
  Filled-letters left d b r le f i zero e =
      let at : i ≡ left = omega arith in
      rw at (f.kept left (omega arith) ∙ get_elem?-set_self b left (letter d 0) le)
  Filled-letters left d b r le f i (suc k) e = f.letters i k (omega arith)

  Filled-suc :
      (left : ℕ) (d : Draw S) (b r : Bytes)
      → suc left ≤ length b
      → Filled left (shift (refill int63 d)) (set b left (letter d 0)) r
      → Filled (suc left) d b r
  Filled-suc left d b r le f = record {
    same_length = f.same_length ∙ length-set b left (letter d 0);
    kept = λ j h. f.kept j (omega arith) ∙ get_elem?-set_lt b left j (letter d 0) h;
    letters = λ i k e. Filled-letters left d b r le f i k e;
  }

  -- One round writes a letter.
  nonce_loop-suc :
      (fuel left : ℕ) (d : Draw S) (b : Bytes)
      → nonce_loop int63 (suc fuel) (suc left) d b
        ≡ nonce_loop int63 fuel left (shift (refill int63 d)) (set b left (letter d 0))
  unfolding nonce_loop letter after
  nonce_loop-suc fuel left d b =
      let pred : suc left - 1 ≡ left = omega arith in
      rw (pred, suc-==-zero left, index_in_range (refill int63 d))

  nonce_loop_lem :
      (fuel left : ℕ) (d : Draw S) (b : Bytes)
      → left < fuel
      → left ≤ length b
      → (r : Bytes) × (s : S) × (nonce_loop int63 fuel left d b ≡ some (r, s)) × Filled left d b r
  nonce_loop_lem zero left d b h le = absurd (omega arith)
  nonce_loop_lem (suc fuel) zero d b h le = (
    b,
    d.source,
    unfold nonce_loop in refl,
    record { same_length = refl; kept = λ j _. refl; letters = λ i k e. absurd (omega arith) },
  )
  nonce_loop_lem (suc fuel) (suc left) d b h le =
      let d' = shift (refill int63 d) in
      let b' = set b left (letter d 0) in
      let (r, s, e, f) =
        nonce_loop_lem fuel left d' b' (omega arith)
          (omega (arith, length-set b left (letter d 0))) in
      (r, s, nonce_loop-suc fuel left d b ∙ e, Filled-suc left d b r le f)

  -- The source after j values, and its value number j.
  unfoldable pub drawn : S → ℕ → S
  drawn s zero = s
  drawn s (suc j) = (int63 (drawn s j)).1

  unfoldable pub value : S → ℕ → ℕ
  value s j = (int63 (drawn s j)).0

  -- Group e of value j, counted from its low bits: what the loop should be looking at.
  at : S → ℕ → ℕ → Draw S
  at s j e = record {
    cache = value s j / 64 ^ e;
    remain = nonce_idx_max - e;
    source = drawn s (suc j);
  }

  refill-draw : (s : S) → refill int63 (draw int63 s) ≡ at s 0 0
  unfolding refill draw at value drawn
  refill-draw s = rw (div-one (int63 s).0)

  refill-shift : (s : S) (j e : ℕ) → e < 9 → refill int63 (shift (at s j e)) ≡ at s j (suc e)
  unfolding refill shift at
  refill-shift s j e h = ground (arith, div-div-eq-div-mul (value s j) (64 ^ e) 64, pow-suc 64 e)

  refill-shift_last : (s : S) (j : ℕ) → refill int63 (shift (at s j 9)) ≡ at s (suc j) 0
  unfolding refill shift at draw value drawn
  refill-shift_last s j = rw (div-one (value s (suc j)))

  after-suc : (d : Draw S) (k : ℕ) → after d (suc k) ≡ shift (refill int63 (after d k))
  unfolding after
  after-suc d zero = refl
  after-suc d (suc k) = after-suc (shift (refill int63 d)) k

  -- One more letter is one more group, of the next value after ten.
  at-suc :
      (s : S) (k : ℕ)
      → refill int63 (shift (at s (k / 10) (k % 10))) ≡ at s (suc k / 10) (suc k % 10)
  at-suc s k = elim (dec_lt (k % 10) 9) [
    | yes h ↦
        let j : suc k / 10 ≡ k / 10 = omega arith in
        let e : suc k % 10 ≡ suc (k % 10) = omega arith in
        rw (j, e) (refill-shift s (k / 10) (k % 10) h)
    | no h ↦
        let last : k % 10 ≡ 9 = omega arith in
        let j : suc k / 10 ≡ suc (k / 10) = omega arith in
        let e : suc k % 10 ≡ 0 = omega arith in rw (j, e, last) (refill-shift_last s (k / 10))
  ]

  refill-after : (s : S) (k : ℕ) → refill int63 (after (draw int63 s) k) ≡ at s (k / 10) (k % 10)
  unfolding after
  refill-after s zero = refill-draw s
  refill-after s (suc k) =
      ap (refill int63) (after-suc (draw int63 s) k)
      ∙ ap (λ d. refill int63 (shift d)) (refill-after s k)
      ∙ at-suc s k

  -- The six bits of the source that choose the letter with k places behind it: group k % 10 of the
  -- value number k / 10.
  unfoldable pub nonce_index : S → ℕ → ℕ
  unfolding value drawn
  nonce_index s k = value s (k / 10) / 64 ^ (k % 10) % 64

  letter-draw :
      (s : S) (k : ℕ) → some (letter (draw int63 s) k) ≡ get_elem? nonce_bytes (nonce_index s k)
  unfolding letter nonce_index index at
  letter-draw s k =
      ap (λ (d : Draw S). some (byte_at nonce_bytes (d.cache % 64))) (refill-after s k)
      ∙ sym (get_elem?-byte_at nonce_bytes (nonce_index s k) (omega arith))

  -- For every length n ≥ 0, `generateNonce` returns, whatever the source: a nonce of n letters, where
  -- the letter with k letters behind it is the alphabet's at group k % 10 of six bits, from the low
  -- end, of the source's value number k / 10. The guard on the index never skips a letter.
  pub generate_nonce-letters :
      (n : ℕ) (s : S)
      → (r : Bytes) × (s' : S) × (generate_nonce int63 (pos n) s ≡ some (r, s'))
        × (length r ≡ n)
        × ((i k : ℕ) → suc (i + k) ≡ n → get_elem? r i ≡ get_elem? nonce_bytes (nonce_index s k))
  unfolding generate_nonce
  generate_nonce-letters n s =
      let size : length (replicate n 0) ≡ n = length-replicate n 0 in
      let (r, s', e, f) =
        nonce_loop_lem (suc n) n (draw int63 s) (replicate n 0) (omega arith)
          (le_of_eq (sym size)) in
      (r, s', e, f.same_length ∙ size, λ i k h. f.letters i k h ∙ letter-draw s k)
