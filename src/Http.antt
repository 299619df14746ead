-- ===== src/Http.antt =====
-- What the program reads and writes of net/http and net/url: requests, responses, headers and URLs.
-- Header names are given in canonical form.
use jwtproxy.Common.{
  ℕ, ◌++◌, ◌≡◌, Bool, List, [], ◌∷◌, none, some, Bytes, bytes_eq, bytes_eq_refl, lookup,
  if◌then◌else◌, arith,
}
use jwtproxy.Common.Result.{Result}

-- `rest` stands for the fields that the program never names: user info, opaque part, fragment.
pub record Url : Type 0 where
  pub scheme : Bytes
  pub host : Bytes
  pub path : Bytes
  pub raw_query : Bytes
  pub rest : Bytes

-- net/url's parser and printer, and the case folding of Unicode's tables; parameters of the model.
pub record UrlLib : Type 0 where
  pub parse : Bytes → Result Url
  pub print : Url → Bytes
  pub fold : Bytes → List ℕ

-- strings.EqualFold
abbrev pub equal_fold : UrlLib → Bytes → Bytes → Bool
equal_fold lib s t = bytes_eq (lib.fold s) (lib.fold t)

-- the values of a header in the order in which they were added
abbrev pub Header : Type 0
Header = List (Bytes × Bytes)

pub record Request : Type 0 where
  pub method : Bytes
  pub url : Url
  pub header : Header
  pub body : Bytes

pub record Response : Type 0 where
  pub status : ℕ
  pub body : Bytes

-- `h.Get(k)`: the first value, or "".
unfoldable pub header_get : Bytes → Header → Bytes
unfolding lookup
header_get k h = elim (lookup k h) [ none ↦ [] | some v ↦ v ]

-- `h.Add(k, v)`: behind the values that are there.
unfoldable pub header_add : Bytes → Bytes → Header → Header
header_add k v h = h ++ (k, v) ∷ []

unfoldable pub header_del : Bytes → Header → Header
header_del k [] = []
header_del k ((j, v) ∷ h) =
    let rest = header_del k h in if bytes_eq j k then rest else (j, v) ∷ rest

-- `h.Set(k, v)`: in place of the values that are there.
unfoldable pub header_set : Bytes → Bytes → Header → Header
unfolding header_del header_add
header_set k v h = header_add k v (header_del k h)

abbrev pub http_ok : ℕ
http_ok = 200

abbrev pub http_accepted : ℕ
http_accepted = 202

abbrev pub http_no_content : ℕ
http_no_content = 204

abbrev pub http_forbidden : ℕ
http_forbidden = 403

abbrev pub http_not_found : ℕ
http_not_found = 404

abbrev pub http_conflict : ℕ
http_conflict = 409

abbrev pub http_bad_gateway : ℕ
http_bad_gateway = 502

-- Whether a name has a value decides whether one that is added is the one that is read.
pub lookup-header_add :
    (k v : Bytes) (h : Header) (old : Bytes)
    → lookup k h ≡ some old
    → lookup k (header_add k v h) ≡ some old
unfolding lookup header_add
lookup-header_add k v [] old e = ground arith
lookup-header_add k v ((j, u) ∷ h) old e = ground (arith, lookup-header_add k v h old)

pub lookup-header_add_new :
    (k v : Bytes) (h : Header) → lookup k h ≡ none → lookup k (header_add k v h) ≡ some v
unfolding lookup header_add
lookup-header_add_new k v [] e = ground (arith, bytes_eq_refl k)
lookup-header_add_new k v ((j, u) ∷ h) e = ground (arith, lookup-header_add_new k v h)
