-- ===== src/Common/Result.antt =====
-- Go's `error` values and pairs of a value and an error.
use mathlib.Core.Path.{◌≡◌, refl, ap}
use mathlib.Core.Option.{Option, none, some}
use mathlib.Core.Logic.{◌⊎◌, inl, inr}
use mathlib.Core.Bool.{Bool, true, false}
use mathlib.Core.List.{◌++◌}
use jwtproxy.Common.Strings.{Bytes, codes}

-- The sentinels of jwt/keyserver/keyserver.go are compared by identity, so they are constructors of
-- their own; `message` is errors.New, `wrapped` is fmt.Errorf with "%s" of an error behind its
-- text, and `foreign` is an error that a library returned, with its text.
pub data Error : Type 0 where
  public_key_not_found public_key_expired unknown_response : Error
  message : Bytes → Error
  wrapped : Bytes → Error → Error
  foreign : Bytes → Error

-- `err.Error()`
unfoldable pub text : Error → Bytes
text public_key_not_found = codes "Could not find any matching public key"
text public_key_expired = codes "Key has expired."
text unknown_response = codes "Unexpected response."
text (message s) = s
text (wrapped s e) = s ++ text e
text (foreign s) = s

pub data Result {ℓ} (A : Type ℓ) : Type ℓ where
  ok : A → Result A
  err : Error → Result A

infixl 5 ◌>>=◌
abbrev pub ◌>>=◌ {ℓ κ} : {A : Type ℓ} {B : Type κ} → Result A → (A → Result B) → Result B
ok a >>= f = f a
err e >>= f = err e

-- `if err != nil { return nil, errors.New(…) }`: the error is replaced.
abbrev pub or_else {ℓ} : {A : Type ℓ} → Result A → Error → Result A
or_else (ok a) e = ok a
or_else (err e') e = err e

-- `if x == nil { return nil, e }`
abbrev pub or_nil {ℓ} : {A : Type ℓ} → Option A → Error → Result A
or_nil (some a) e = ok a
or_nil none e = err e

abbrev pub is_ok {ℓ} : {A : Type ℓ} → Result A → Bool
is_ok (ok a) = true
is_ok (err e) = false

pub Result-cases {ℓ} :
    {A : Type ℓ} (r : Result A) → ((a : A) × (r ≡ ok a)) ⊎ ((e : Error) × (r ≡ err e))
Result-cases (ok a) = inl (a, refl)
Result-cases (err e) = inr (e, refl)

pub ok_injective {ℓ} : {A : Type ℓ} {a b : A} → ok a ≡ ok b → a ≡ b
ok_injective {A} {a} e = ap (from_ok a) e
  where
    from_ok : A → Result A → A
    from_ok a (ok b) = b
    from_ok a (err x) = a
