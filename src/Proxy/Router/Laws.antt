-- ===== src/Proxy/Router/Laws.antt =====
-- The paths that the router makes.
use jwtproxy.Common.{
  ◌≡◌, ◌++◌, true, false, inl, inr, Bool-cases, [], ◌∷◌, Bytes, codes, ==_iff, arith,
}
use jwtproxy.Common.Affix.{
  has_prefix, drop_prefix, trim_prefix, ends_with, trim_last, ends_with_append, ends_with_not,
}
use jwtproxy.Proxy.Router.{slash, tail, single_joining_slash}

-- a string that begins with a slash, taken apart
slash_first :
    (b : Bytes)
    → has_prefix b (codes "/") ≡ true
    → (b ≡ slash ∷ trim_prefix b (codes "/")) × (tail b ≡ trim_prefix b (codes "/"))
unfolding has_prefix trim_prefix drop_prefix
slash_first [] h = ground arith
slash_first (c ∷ b) h = (ground (arith, ==_iff c slash), ground arith)

no_slash_first : (b : Bytes) → has_prefix b (codes "/") ≡ false → trim_prefix b (codes "/") ≡ b
unfolding trim_prefix
no_slash_first b h = ground arith

-- The joined path has one slash where the two parts meet: it is the upstream's path without a last
-- slash, a slash, and the request's path without a first slash.
single_joining_slash_eq :
    (a b : Bytes)
    → single_joining_slash a b ≡ trim_last slash a ++ slash ∷ trim_prefix b (codes "/")
unfolding single_joining_slash
single_joining_slash_eq a b = elim (Bool-cases (ends_with slash a)) [
  | inl aslash ↦ elim (Bool-cases (has_prefix b (codes "/"))) [
    | inl bslash ↦
        let (whole, rest) = slash_first b bslash in
        ground (arith, ends_with_append slash a (tail b) aslash, rest)
    | inr none_first ↦
        ground (arith, ends_with_append slash a b aslash, no_slash_first b none_first)
  ]
  | inr none_last ↦ elim (Bool-cases (has_prefix b (codes "/"))) [
    | inl bslash ↦
        let (whole, rest) = slash_first b bslash in
        ground (arith, ends_with_not slash a none_last, whole)
    | inr none_first ↦ ground (arith, ends_with_not slash a none_last, no_slash_first b none_first)
  ]
]
