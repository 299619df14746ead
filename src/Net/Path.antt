-- ===== src/Net/Path.antt =====
-- path.Join and path.Clean: paths with "/" between their elements, over bytes.
pub mod Join
pub mod Print
use jwtproxy.Common.{
  ℕ, Bool, true, false, ◌==◌, ◌&&◌, ◌||◌, List, [], ◌∷◌, ◌++◌, Bytes, codes, bytes_eq,
  if◌then◌else◌,
}
use jwtproxy.Common.Affix.{has_prefix}

-- the byte "/"
abbrev pub slash : ℕ
slash = 47

-- Puts a byte in front of the first element.
unfoldable pub push_byte : ℕ → List Bytes → List Bytes
push_byte c [] = (c ∷ []) ∷ []
push_byte c (e ∷ es) = (c ∷ e) ∷ es

-- strings.Split(p, "/")
unfoldable pub split : Bytes → List Bytes
split [] = [] ∷ []
split (c ∷ p) = let rest = split p in if c == slash then [] ∷ rest else push_byte c rest

-- strings.Join(es, "/")
unfoldable pub join_slash : List Bytes → Bytes
join_slash [] = []
join_slash (e ∷ []) = e
join_slash (e ∷ f ∷ es) = e ++ slash ∷ join_slash (f ∷ es)

-- "", "." and ".."
abbrev pub dot : Bytes
dot = 46 ∷ []

abbrev pub dot_dot : Bytes
dot_dot = 46 ∷ 46 ∷ []

-- ".." on the elements so far, of which the last is the head: it takes the last away, and stays if
-- there is none to take away, or at the root goes.
unfoldable pub leave : Bool → List Bytes → List Bytes
leave true [] = []
leave false [] = dot_dot ∷ []
leave rooted (e ∷ es) = if bytes_eq e dot_dot then dot_dot ∷ e ∷ es else es

unfoldable pub clean_step : Bool → List Bytes → Bytes → List Bytes
clean_step rooted out e =
    if bytes_eq e [] || bytes_eq e dot
    then out
    else if bytes_eq e dot_dot
    then leave rooted out
    else e ∷ out

unfoldable pub clean_from : Bool → List Bytes → List Bytes → List Bytes
clean_from rooted out [] = out
clean_from rooted out (e ∷ es) = clean_from rooted (clean_step rooted out e) es

abbrev pub reverse_onto : List Bytes → List Bytes → List Bytes
reverse_onto [] acc = acc
reverse_onto (e ∷ es) acc = reverse_onto es (e ∷ acc)

-- The text of a path of these elements, the last one first.
unfoldable pub print : Bool → List Bytes → Bytes
print true out = slash ∷ join_slash (reverse_onto out [])
print false [] = dot
print false (e ∷ es) = join_slash (reverse_onto (e ∷ es) [])

-- path.Clean
unfoldable pub clean : Bytes → Bytes
clean p = let rooted = has_prefix p (slash ∷ []) in print rooted (clean_from rooted [] (split p))

-- path.Join: empty elements are left out.
unfoldable pub non_empty : List Bytes → List Bytes
non_empty [] = []
non_empty (e ∷ es) = let rest = non_empty es in if bytes_eq e [] then rest else e ∷ rest

abbrev join_all : List Bytes → Bytes
join_all [] = []
join_all (e ∷ es) = clean (join_slash (e ∷ es))

unfoldable pub path_join : List Bytes → Bytes
path_join elems = join_all (non_empty elems)
