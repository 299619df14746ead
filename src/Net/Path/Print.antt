-- ===== src/Net/Path/Print.antt =====
-- The elements of a path can be read off its text.
use mathlib.Core.Path.{subst}
use jwtproxy.Common.{
  ℕ, ◌≡◌, refl, sym, ap, ◌∙◌, inl, inr, Bool-cases, Bool, true, false, ◌==◌, ◌||◌, List, [], ◌∷◌,
  Bytes, bytes_eq, All, if◌then◌else◌,
}
use jwtproxy.Net.Path.{
  slash, dot, dot_dot, push_byte, split, join_slash, leave, clean_step, clean_from, reverse_onto,
  print,
}
use jwtproxy.Net.Path.Join.{NoSlash, is_rooted, base_elements, split-join_slash}

pub All-reverse_onto :
    (out acc : List Bytes) → All NoSlash out → All NoSlash acc → All NoSlash (reverse_onto out acc)
All-reverse_onto [] acc h k = k
All-reverse_onto (e ∷ out) acc (h, hs) k = All-reverse_onto out (e ∷ acc) hs (h, k)

push_byte-NoSlash :
    (c : ℕ) (es : List Bytes) → (c == slash) ≡ false → All NoSlash es → All NoSlash (push_byte c es)
unfolding push_byte
push_byte-NoSlash c [] h hs = ((h, tt), tt)
push_byte-NoSlash c (e ∷ es) h (k, ks) = ((h, k), ks)

split-NoSlash : (p : Bytes) → All NoSlash (split p)
unfolding split
split-NoSlash [] = (tt, tt)
split-NoSlash (c ∷ p) = elim (Bool-cases (c == slash)) [
  | inl e ↦ rw (e, split) (tt, split-NoSlash p)
  | inr e ↦ rw (e, split) (push_byte-NoSlash c (split p) e (split-NoSlash p))
]

dot_dot-NoSlash : NoSlash dot_dot
dot_dot-NoSlash = (refl, (refl, tt))

leave-NoSlash : (r : Bool) (out : List Bytes) → All NoSlash out → All NoSlash (leave r out)
unfolding leave
leave-NoSlash true [] h = h
leave-NoSlash false [] h = (dot_dot-NoSlash, tt)
leave-NoSlash true (e ∷ es) h = elim (Bool-cases (bytes_eq e dot_dot)) [
  | inl f ↦ rw (f, leave) (dot_dot-NoSlash, h)
  | inr f ↦ rw (f, leave) h.1
]
leave-NoSlash false (e ∷ es) h = elim (Bool-cases (bytes_eq e dot_dot)) [
  | inl f ↦ rw (f, leave) (dot_dot-NoSlash, h)
  | inr f ↦ rw (f, leave) h.1
]

clean_step-NoSlash :
    (r : Bool) (out : List Bytes) (e : Bytes)
    → All NoSlash out
    → NoSlash e
    → All NoSlash (clean_step r out e)
unfolding clean_step
clean_step-NoSlash r out e h k = elim (Bool-cases (bytes_eq e [] || bytes_eq e dot)) [
  | inl f ↦ rw (f, clean_step) h
  | inr f ↦ elim (Bool-cases (bytes_eq e dot_dot)) [
    | inl g ↦ rw (f, g, clean_step) (leave-NoSlash r out h)
    | inr g ↦ rw (f, g, clean_step) (k, h)
  ]
]

clean_from-NoSlash :
    (r : Bool) (out es : List Bytes)
    → All NoSlash out
    → All NoSlash es
    → All NoSlash (clean_from r out es)
unfolding clean_from
clean_from-NoSlash r out [] h k = h
clean_from-NoSlash r out (e ∷ es) h (k, ks) =
    clean_from-NoSlash r (clean_step r out e) es (clean_step-NoSlash r out e h k) ks

pub base_elements-NoSlash : (base : Bytes) → All NoSlash (base_elements base)
base_elements-NoSlash base =
    clean_from-NoSlash (is_rooted base) [] (split base) tt (split-NoSlash base)

reverse_onto_cons :
    (out : List Bytes) (a : Bytes) (acc : List Bytes)
    → (f : Bytes) × (fs : List Bytes) × (reverse_onto out (a ∷ acc) ≡ f ∷ fs)
reverse_onto_cons [] a acc = (a, acc, refl)
reverse_onto_cons (e ∷ out) a acc = reverse_onto_cons out e (a ∷ acc)

-- The elements can be read off the text.
split-reverse_onto :
    (out : List Bytes) (a : Bytes) (acc : List Bytes)
    → All NoSlash (reverse_onto out (a ∷ acc))
    → split (join_slash (reverse_onto out (a ∷ acc))) ≡ reverse_onto out (a ∷ acc)
split-reverse_onto out a acc h =
    let (f, fs, e) = reverse_onto_cons out a acc in
    rw e (split-join_slash f fs (subst (All NoSlash) e h))

tail : Bytes → Bytes
tail [] = []
tail (c ∷ s) = s

print_elements :
    (r : Bool) (a : Bytes) (out : List Bytes)
    → All NoSlash (a ∷ out)
    → split (if r then tail (print r (a ∷ out)) else print r (a ∷ out)) ≡ reverse_onto out (a ∷ [])
unfolding print tail
print_elements true a out h =
    split-reverse_onto out a [] (All-reverse_onto out (a ∷ []) h.1 (h.0, tt))
print_elements false a out h =
    split-reverse_onto out a [] (All-reverse_onto out (a ∷ []) h.1 (h.0, tt))

-- Paths that are printed alike have the same elements.
pub print_injective :
    (r : Bool) (a b : Bytes) (out out' : List Bytes)
    → All NoSlash (a ∷ out)
    → All NoSlash (b ∷ out')
    → print r (a ∷ out) ≡ print r (b ∷ out')
    → reverse_onto out (a ∷ []) ≡ reverse_onto out' (b ∷ [])
print_injective r a b out out' h k e =
    sym (print_elements r a out h)
    ∙ ap (λ p. split (if r then tail p else p)) e
    ∙ print_elements r b out' k

drop_head : List Bytes → List Bytes
drop_head [] = []
drop_head (e ∷ es) = es

pub reverse_onto_injective :
    (out a b : List Bytes) → reverse_onto out a ≡ reverse_onto out b → a ≡ b
unfolding drop_head
reverse_onto_injective [] a b e = e
reverse_onto_injective (x ∷ out) a b e = ap drop_head (reverse_onto_injective out (x ∷ a) (x ∷ b) e)
