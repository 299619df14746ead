-- ===== src/Net/Path/Join.antt =====
-- What path.Join makes of a base path and plain elements.
use jwtproxy.Common.{
  ℕ, ◌≡◌, refl, ap, ◌∙◌, inl, inr, Bool-cases, Bool, false, ◌==◌, List, [], ◌∷◌, ◌++◌, Bytes,
  bytes_eq, All, arith,
}
use jwtproxy.Common.Affix.{has_prefix}
use jwtproxy.Net.Path.{
  slash, dot, dot_dot, push_byte, split, join_slash, clean_step, clean_from, reverse_onto, print,
  clean, non_empty, path_join,
}

abbrev pub NoSlash : Bytes → Type 0
NoSlash = All (λ c. (c == slash) ≡ false)

-- an element that path.Clean leaves alone
pub record IsElement (e : Bytes) : Type 0 where
  pub not_empty : bytes_eq e [] ≡ false
  pub not_dot : bytes_eq e dot ≡ false
  pub not_dot_dot : bytes_eq e dot_dot ≡ false
  pub no_slash : NoSlash e

split_element : (e : Bytes) → NoSlash e → split e ≡ e ∷ []
unfolding split push_byte
split_element [] h = refl
split_element (c ∷ e) (hc, h) = ground (arith, split_element e h)

push_byte_cons :
    (c : ℕ) (es : List Bytes) → (f : Bytes) × (fs : List Bytes) × (push_byte c es ≡ f ∷ fs)
unfolding push_byte
push_byte_cons c [] = (c ∷ [], [], refl)
push_byte_cons c (e ∷ es) = (c ∷ e, es, refl)

split_cons : (p : Bytes) → (e : Bytes) × (es : List Bytes) × (split p ≡ e ∷ es)
unfolding split
split_cons [] = ([], [], refl)
split_cons (c ∷ p) = elim (Bool-cases (c == slash)) [
  | inl e ↦ ([], split p, ground (arith, e))
  | inr e ↦ let (f, fs, g) = push_byte_cons c (split p) in (f, fs, ground (arith, e, g))
]

push_byte-append :
    (c : ℕ) (p : Bytes) (ys : List Bytes)
    → push_byte c (split p ++ ys) ≡ push_byte c (split p) ++ ys
unfolding push_byte
push_byte-append c p ys = let (e, es, f) = split_cons p in rw f refl

split-append : (p q : Bytes) → split (p ++ slash ∷ q) ≡ split p ++ split q
unfolding split
split-append [] q = refl
split-append (c ∷ p) q = elim (Bool-cases (c == slash)) [
  | inl e ↦ rw (e, split) (ap (λ r. [] ∷ r) (split-append p q))
  | inr e ↦ rw (e, split) (ap (push_byte c) (split-append p q) ∙ push_byte-append c p (split q))
]

pub split-join_slash :
    (e : Bytes) (es : List Bytes) → All NoSlash (e ∷ es) → split (join_slash (e ∷ es)) ≡ e ∷ es
unfolding join_slash
split-join_slash e [] (h, hs) = split_element e h
split-join_slash e (f ∷ es) (h, hs) =
    split-append e (join_slash (f ∷ es))
    ∙ (rw (split_element e h) (ap (λ r. e ∷ r) (split-join_slash f es hs)))

pub clean_from-append :
    (r : Bool) (out xs ys : List Bytes)
    → clean_from r out (xs ++ ys) ≡ clean_from r (clean_from r out xs) ys
unfolding clean_from
clean_from-append r out [] ys = refl
clean_from-append r out (x ∷ xs) ys = clean_from-append r (clean_step r out x) xs ys

-- an element that path.Join keeps apart, though path.Clean may resolve it
pub record IsPart (e : Bytes) : Type 0 where
  pub not_empty : bytes_eq e [] ≡ false
  pub no_slash : NoSlash e

parts_NoSlash : (es : List Bytes) → All IsPart es → All NoSlash es
parts_NoSlash [] h = tt
parts_NoSlash (e ∷ es) (h, hs) = (h.no_slash, parts_NoSlash es hs)

non_empty_parts : (es : List Bytes) → All IsPart es → non_empty es ≡ es
unfolding non_empty
non_empty_parts [] h = refl
non_empty_parts (e ∷ es) (h, hs) =
    rw (h.not_empty, non_empty) (ap (λ r. e ∷ r) (non_empty_parts es hs))

-- the elements of the base path, the last one first, and whether it starts at the root
abbrev pub is_rooted : Bytes → Bool
is_rooted base = has_prefix base (slash ∷ [])

abbrev pub base_elements : Bytes → List Bytes
base_elements base = clean_from (is_rooted base) [] (split base)

not_rooted : (e : Bytes) (es : List Bytes) → IsPart e → is_rooted (join_slash (e ∷ es)) ≡ false
unfolding join_slash has_prefix bytes_eq
not_rooted [] es h = ground (arith, h.not_empty)
not_rooted (c ∷ e) [] h = ground (arith, h.no_slash)
not_rooted (c ∷ e) (f ∷ es) h = ground (arith, h.no_slash)

clean_parts :
    (e : Bytes) (es : List Bytes)
    → All IsPart (e ∷ es)
    → clean (join_slash (e ∷ es)) ≡ print false (clean_from false [] (e ∷ es))
unfolding clean
clean_parts e es h =
    ap (λ r. print r (clean_from r [] (split (join_slash (e ∷ es))))) (not_rooted e es h.0)
    ∙ ap (λ l. print false (clean_from false [] l))
        (split-join_slash e es (parts_NoSlash (e ∷ es) h))

clean_base :
    (c : ℕ) (base e : Bytes) (es : List Bytes)
    → All IsPart (e ∷ es)
    → clean (join_slash ((c ∷ base) ∷ e ∷ es))
      ≡ print
          (is_rooted (c ∷ base))
          (clean_from (is_rooted (c ∷ base)) (base_elements (c ∷ base)) (e ∷ es))
unfolding clean join_slash has_prefix
clean_base c base e es h =
    let r = is_rooted (c ∷ base) in
    ap (λ l. print r (clean_from r [] l))
      (split-append (c ∷ base) (join_slash (e ∷ es))
        ∙ ap (λ l. split (c ∷ base) ++ l) (split-join_slash e es (parts_NoSlash (e ∷ es) h)))
    ∙ ap (print r) (clean_from-append r [] (split (c ∷ base)) (e ∷ es))

-- path.Join of a base path and further parts resolves the parts behind the cleaned base.
pub path_join_parts :
    (base e : Bytes) (es : List Bytes)
    → All IsPart (e ∷ es)
    → path_join (base ∷ e ∷ es)
      ≡ print (is_rooted base) (clean_from (is_rooted base) (base_elements base) (e ∷ es))
unfolding path_join non_empty has_prefix split clean_from clean_step bytes_eq
path_join_parts [] e es h = rw (non_empty_parts (e ∷ es) h) (clean_parts e es h)
path_join_parts (c ∷ base) e es h = rw (non_empty_parts (e ∷ es) h) (clean_base c base e es h)

-- Plain elements are put on one by one.
pub clean_from_elements :
    (r : Bool) (out es : List Bytes) → All IsElement es → clean_from r out es ≡ reverse_onto es out
unfolding clean_from clean_step
clean_from_elements r out [] h = refl
clean_from_elements r out (e ∷ es) (h, hs) =
    rw (h.not_empty, h.not_dot, h.not_dot_dot, clean_step) (clean_from_elements r (e ∷ out) es hs)
