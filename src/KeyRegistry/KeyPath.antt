-- ===== src/KeyRegistry/KeyPath.antt =====
-- The paths of keys in the registry, as `absURL` makes them.
mod Tests
use jwtproxy.Common.{
  ℕ, zero, suc, ◌≡◌, ◌≢◌, refl, sym, ap, ◌∙◌, inl, inr, Bool-cases, Bool, true, false, List, [],
  ◌∷◌, Bytes, codes, bytes_eq, bytes_eq_iff, All, if◌then◌else◌, arith,
}
use jwtproxy.Net.Path.{dot, dot_dot, clean_step, clean_from, leave, reverse_onto, print, path_join}
use jwtproxy.Net.Path.Join.{
  NoSlash, IsElement, IsPart, is_rooted, base_elements, path_join_parts, clean_from_elements,
  clean_from-append,
}
use jwtproxy.Net.Path.Print.{base_elements-NoSlash, print_injective, reverse_onto_injective}
use jwtproxy.Net.Escape.{query_escape, is_unreserved}
use jwtproxy.Net.Escape.Laws.{AreBytes, query_escape-NoSlash, query_escape_injective}
use jwtproxy.KeyRegistry.{registry_path}

-- the path under which `GetPublicKey` and the other requests ask for a key
abbrev pub key_path : Bytes → Bytes → Bytes → Bytes
key_path base issuer key_id =
    registry_path base (codes "services" ∷ issuer ∷ codes "keys" ∷ key_id ∷ [])

-- a text of bytes other than "", "." and ".."
pub record IsName (s : Bytes) : Type 0 where
  pub bytes : AreBytes s
  pub not_empty : s ≢ []
  pub not_dot : s ≢ dot
  pub not_dot_dot : s ≢ dot_dot

dot-AreBytes : AreBytes dot
dot-AreBytes = (omega arith, tt)

dot_dot-AreBytes : AreBytes dot_dot
dot_dot-AreBytes = (omega arith, (omega arith, tt))

escape_not :
    (s t : Bytes)
    → AreBytes s
    → AreBytes t
    → query_escape t ≡ t
    → s ≢ t
    → bytes_eq (query_escape s) t ≡ false
escape_not s t hs ht e other = elim (Bool-cases (bytes_eq (query_escape s) t)) [
  | inr f ↦ f
  | inl f ↦
      absurd
        (other (query_escape_injective s t hs ht ((bytes_eq_iff (query_escape s) t).0 f ∙ sym e)))
]

escape-IsPart : (s : Bytes) → AreBytes s → s ≢ [] → IsPart (query_escape s)
unfolding query_escape is_unreserved
escape-IsPart s h k = record {
  not_empty = escape_not s [] h tt refl k;
  no_slash = query_escape-NoSlash s h;
}

escape-IsElement : (s : Bytes) → IsName s → IsElement (query_escape s)
unfolding query_escape is_unreserved
escape-IsElement s h = record {
  not_empty = escape_not s [] h.bytes tt refl h.not_empty;
  not_dot = escape_not s dot h.bytes dot-AreBytes refl h.not_dot;
  not_dot_dot = escape_not s dot_dot h.bytes dot_dot-AreBytes refl h.not_dot_dot;
  no_slash = query_escape-NoSlash s h.bytes;
}

plain-IsElement :
    (s : Bytes)
    → NoSlash s
    → bytes_eq s [] ≡ false
    → bytes_eq s dot ≡ false
    → bytes_eq s dot_dot ≡ false
    → IsElement s
plain-IsElement s h a b c = record { not_empty = a; not_dot = b; not_dot_dot = c; no_slash = h }

abbrev services : Bytes
services = codes "services"

abbrev keys : Bytes
keys = codes "keys"

services-IsElement : IsElement services
unfolding bytes_eq
services-IsElement = record {
  not_empty = refl;
  not_dot = refl;
  not_dot_dot = refl;
  no_slash = (ground arith);
}

keys-IsElement : IsElement keys
unfolding bytes_eq
keys-IsElement = record {
  not_empty = refl;
  not_dot = refl;
  not_dot_dot = refl;
  no_slash = (ground arith);
}

-- an element is a part
part : (s : Bytes) → IsElement s → IsPart s
part s h = record { not_empty = h.not_empty; no_slash = h.no_slash }

escape_services : query_escape services ≡ services
unfolding query_escape is_unreserved
escape_services = refl

escape_keys : query_escape keys ≡ keys
unfolding query_escape is_unreserved
escape_keys = refl

-- the elements of the path of a key, the last one first
key_elements : Bytes → Bytes → Bytes → List Bytes
key_elements base i k = k ∷ keys ∷ i ∷ services ∷ base_elements base

elements_NoSlash :
    (base i k : Bytes)
    → IsName i
    → IsName k
    → All NoSlash (key_elements base (query_escape i) (query_escape k))
unfolding key_elements
elements_NoSlash base i k hi hk = (
  query_escape-NoSlash k hk.bytes,
  (
    keys-IsElement.no_slash,
    (query_escape-NoSlash i hi.bytes, (services-IsElement.no_slash, base_elements-NoSlash base)),
  ),
)

nth : ℕ → List Bytes → Bytes
nth n [] = []
nth zero (e ∷ es) = e
nth (suc n) (e ∷ es) = nth n es

key_path_named :
    (base issuer key_id : Bytes)
    → IsName issuer
    → IsName key_id
    → key_path base issuer key_id
      ≡ print (is_rooted base) (key_elements base (query_escape issuer) (query_escape key_id))
unfolding registry_path key_elements
key_path_named base issuer key_id hi hk =
    let ei = escape-IsElement issuer hi in
    let ek = escape-IsElement key_id hk in
    rw (escape_services, escape_keys)
      (path_join_parts base services (query_escape issuer ∷ keys ∷ query_escape key_id ∷ []) (
        part services services-IsElement,
        (part _ ei, (part keys keys-IsElement, (part _ ek, tt))),
      )
        ∙ ap (print (is_rooted base)) (
            clean_from_elements (is_rooted base) (base_elements base)
              (services ∷ query_escape issuer ∷ keys ∷ query_escape key_id ∷ [])
              (services-IsElement, (ei, (keys-IsElement, (ek, tt))))))

-- Two issuers and key ids that are names have one path only if they are the same, whatever the base path
-- of the registry.
pub key_path_injective :
    (base issuer issuer' key_id key_id' : Bytes)
    → IsName issuer
    → IsName issuer'
    → IsName key_id
    → IsName key_id'
    → key_path base issuer key_id ≡ key_path base issuer' key_id'
    → (issuer ≡ issuer') × (key_id ≡ key_id')
unfolding key_elements nth
key_path_injective base i i' k k' hi hi' hk hk' e =
    let same =
      reverse_onto_injective (base_elements base)
        (services ∷ query_escape i ∷ keys ∷ query_escape k ∷ [])
        (services ∷ query_escape i' ∷ keys ∷ query_escape k' ∷ [])
        (print_injective (is_rooted base) (query_escape k) (query_escape k')
          (keys ∷ query_escape i ∷ services ∷ base_elements base)
          (keys ∷ query_escape i' ∷ services ∷ base_elements base) (elements_NoSlash base i k hi hk)
          (elements_NoSlash base i' k' hi' hk')
          (sym (key_path_named base i k hi hk) ∙ e ∙ key_path_named base i' k' hi' hk')) in
    (
      query_escape_injective i i' hi.bytes hi'.bytes (ap (nth 1) same),
      query_escape_injective k k' hk.bytes hk'.bytes (ap (nth 3) same),
    )

escape_dot_dot : query_escape dot_dot ≡ dot_dot
unfolding query_escape is_unreserved
escape_dot_dot = refl

dot_dot-IsPart : IsPart dot_dot
unfolding bytes_eq
dot_dot-IsPart = record { not_empty = refl; no_slash = ground arith }

-- ".." takes the last element away.
leave_element :
    (r : Bool) (e : Bytes) (out rest : List Bytes)
    → IsElement e
    → clean_from r (e ∷ out) (dot_dot ∷ rest) ≡ clean_from r out rest
unfolding clean_from clean_step leave bytes_eq
leave_element true e out rest h =
    ap (λ t. clean_from true (if t then dot_dot ∷ e ∷ out else out) rest) h.not_dot_dot
leave_element false e out rest h =
    ap (λ t. clean_from false (if t then dot_dot ∷ e ∷ out else out) rest) h.not_dot_dot

-- A key id of ".." is not escaped and takes the path to the issuer, above its keys; an issuer of ".." takes
-- it out of the services.
pub key_path-dot_dot :
    (base name : Bytes)
    → IsName name
    → (key_path base name dot_dot ≡ registry_path base (codes "services" ∷ name ∷ []))
      × (key_path base dot_dot name ≡ registry_path base (codes "keys" ∷ name ∷ []))
unfolding registry_path clean_from
key_path-dot_dot base name h =
    let e = query_escape name in
    let he = escape-IsElement name h in
    let r = is_rooted base in
    let out = base_elements base in
    let hs = services-IsElement in
    let hk = keys-IsElement in
    let up = dot_dot-IsPart in
    (
      rw (escape_services, escape_keys, escape_dot_dot)
          (path_join_parts base services (e ∷ keys ∷ dot_dot ∷ [])
              (part services hs, (part e he, (part keys hk, (up, tt))))
            ∙ ap (print r) (
                clean_from-append r out (services ∷ e ∷ keys ∷ []) (dot_dot ∷ [])
                ∙ ap (λ l. clean_from r l (dot_dot ∷ []))
                    (clean_from_elements r out (services ∷ e ∷ keys ∷ []) (hs, (he, (hk, tt))))
                ∙ leave_element r keys (e ∷ services ∷ out) [] hk
                ∙ sym (clean_from_elements r out (services ∷ e ∷ []) (hs, (he, tt))))
            ∙ sym (path_join_parts base services (e ∷ []) (part services hs, (part e he, tt)))),
      rw (escape_services, escape_keys, escape_dot_dot)
          (path_join_parts base services (dot_dot ∷ keys ∷ e ∷ [])
              (part services hs, (up, (part keys hk, (part e he, tt))))
            ∙ ap (print r) (
                clean_from-append r out (services ∷ []) (dot_dot ∷ keys ∷ e ∷ [])
                ∙ ap (λ l. clean_from r l (dot_dot ∷ keys ∷ e ∷ []))
                    (clean_from_elements r out (services ∷ []) (hs, tt))
                ∙ leave_element r services out (keys ∷ e ∷ []) hs)
            ∙ sym (path_join_parts base keys (e ∷ []) (part keys hk, (part e he, tt)))),
    )
