-- ===== src/Net/Escape/Laws.antt =====
-- Escaping loses nothing, and leaves no slash.
use jwtproxy.Common.{
  ℕ, ◌+◌, ◌-◌, ◌*◌, ◌/◌, ◌%◌, ◌<◌, ◌≡◌, refl, sym, ap, ◌∙◌, inl, inr, Bool-cases, true, false, ◌==◌,
  ==_iff, ltb, [], ◌∷◌, Bytes, All, if◌then◌else◌, arith,
}
use jwtproxy.Net.Path.Join.{NoSlash}
use jwtproxy.Net.Escape.{is_unreserved, hex_digit, query_escape}

abbrev pub AreBytes : Bytes → Type 0
AreBytes = All (λ c. c < 256)

-- what a hexadecimal digit stands for
unfoldable pub digit_value : ℕ → ℕ
digit_value d = if ltb d 58 then d - 48 else d - 55

-- A reader of escaped text: in plain text, behind "%", or behind "%" and a digit of this value.
pub data Mode : Type 0 where
  plain : Mode
  percent : Mode
  high : ℕ → Mode

-- The reading of an escaped text: "+" is a space, "%" and two digits a byte.
unfoldable pub unescape : Mode → Bytes → Bytes
unescape mode [] = []
unescape plain (c ∷ s) =
    let coded = unescape percent s in
    let rest = unescape plain s in
    if c == 37 then coded else if c == 43 then 32 ∷ rest else c ∷ rest
unescape percent (c ∷ s) = unescape (high (digit_value c)) s
unescape (high v) (c ∷ s) = (v * 16 + digit_value c) ∷ unescape plain s

digit_value-hex_digit : (n : ℕ) → n < 16 → digit_value (hex_digit n) ≡ n
unfolding digit_value hex_digit
digit_value-hex_digit n h = ground arith

is_unreserved_plain :
    (c : ℕ)
    → is_unreserved c ≡ true
    → ((c == 37) ≡ false) × ((c == 43) ≡ false) × ((c == 47) ≡ false)
unfolding is_unreserved
is_unreserved_plain c h = ground arith

-- Reading what was escaped gives the bytes back.
pub unescape-query_escape : (s : Bytes) → AreBytes s → unescape plain (query_escape s) ≡ s
unfolding unescape query_escape
unescape-query_escape [] h = refl
unescape-query_escape (c ∷ s) (hc, hs) = elim (Bool-cases (is_unreserved c)) [
  | inl e ↦ ground (arith, is_unreserved_plain c e, unescape-query_escape s hs)
  | inr e ↦ elim (Bool-cases (c == 32)) [
    | inl f ↦ ground (arith, e, ==_iff c 32, unescape-query_escape s hs)
    | inr f ↦ ground (
      arith,
      e,
      digit_value-hex_digit (c / 16) (omega arith),
      digit_value-hex_digit (c % 16) (omega arith),
      unescape-query_escape s hs,
    )
  ]
]

-- Two texts of bytes that escape alike are the same.
pub query_escape_injective :
    (s t : Bytes) → AreBytes s → AreBytes t → query_escape s ≡ query_escape t → s ≡ t
query_escape_injective s t hs ht e =
    sym (unescape-query_escape s hs) ∙ ap (unescape plain) e ∙ unescape-query_escape t ht

hex_digit_no_slash : (n : ℕ) → n < 16 → (hex_digit n == 47) ≡ false
unfolding hex_digit
hex_digit_no_slash n h = ground arith

pub query_escape-NoSlash : (s : Bytes) → AreBytes s → NoSlash (query_escape s)
unfolding query_escape
query_escape-NoSlash [] h = tt
query_escape-NoSlash (c ∷ s) (hc, hs) = elim (Bool-cases (is_unreserved c)) [
  | inl e ↦ rw (e, query_escape) ((is_unreserved_plain c e).2, query_escape-NoSlash s hs)
  | inr e ↦ elim (Bool-cases (c == 32)) [
    | inl f ↦ rw (e, f, query_escape) (refl, query_escape-NoSlash s hs)
    | inr f ↦
        rw (e, f, query_escape)
          (
            refl,
            (
              hex_digit_no_slash (c / 16) (omega arith),
              (hex_digit_no_slash (c % 16) (omega arith), query_escape-NoSlash s hs),
            ),
          )
  ]
]
