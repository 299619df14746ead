-- ===== src/KeyRegistry/KeyPath/Tests.antt =====
-- Paths of concrete keys.
use jwtproxy.Common.{◌≡◌, refl, [], ◌∷◌, codes, bytes_eq, arith}
use jwtproxy.Common.Affix.{has_prefix}
use jwtproxy.Net.Path.{
  dot_dot, push_byte, split, join_slash, leave, clean_step, clean_from, print, clean, non_empty,
  path_join,
}
use jwtproxy.Net.Escape.{is_unreserved, hex_digit, query_escape}
use jwtproxy.KeyRegistry.{registry_path}
use jwtproxy.KeyRegistry.KeyPath.{key_path, IsName, key_path_injective, key_path-dot_dot}

evaluation : Unit {0}
unfolding registry_path path_join non_empty clean print clean_from clean_step leave join_slash split
    push_byte query_escape is_unreserved hex_digit bytes_eq has_prefix
evaluation = tt

escaped :
    key_path (codes "/registry/") (codes "a/b c") (codes "k~1")
    ≡ codes "/registry/services/a%2Fb+c/keys/k~1"
unfolding evaluation
escaped = refl

above : key_path (codes "/registry") (codes "a") (codes "..") ≡ codes "/registry/services/a"
unfolding evaluation
above = refl

cleaned : path_join (codes "x/../../y/" ∷ [] ∷ codes "./z" ∷ []) ≡ codes "../y/z"
unfolding evaluation
cleaned = refl

a-IsName : IsName (codes "a")
a-IsName = record {
  bytes = omega arith;
  not_empty = λ e. ground arith;
  not_dot = λ e. ground arith;
  not_dot_dot = λ e. ground arith;
}

key_path_injective_example : (codes "a" ≡ codes "a") × (codes "a" ≡ codes "a")
key_path_injective_example =
    key_path_injective (codes "/registry") (codes "a") (codes "a") (codes "a") (codes "a") a-IsName
      a-IsName a-IsName a-IsName refl

key_path-dot_dot_example :
    (key_path (codes "/registry") (codes "a") dot_dot
      ≡ registry_path (codes "/registry") (codes "services" ∷ codes "a" ∷ []))
    × (key_path (codes "/registry") dot_dot (codes "a")
        ≡ registry_path (codes "/registry") (codes "keys" ∷ codes "a" ∷ []))
key_path-dot_dot_example = key_path-dot_dot (codes "/registry") (codes "a") a-IsName
