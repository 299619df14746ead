-- ===== src/Registry/Tests.antt =====
-- Runs of the registrations, with the constructors' names of the program.
use jwtproxy.Common.{
  ◌≡◌, refl, ℕ, List, [], ◌∷◌, none, some, Bytes, codes, bytes_eq, lookup, insert,
}
use jwtproxy.Config.{ComponentConfig}
use jwtproxy.Registry.{register, register_all}

-- the `init` functions of the two kinds of private keys
abbrev private_keys : List (Bytes × ℕ)
private_keys = (codes "autogenerated", 1) ∷ (codes "preshared", 2) ∷ []

-- A name that is taken panics.
taken : register (codes "preshared") (some 3) private_keys ≡ none
unfolding register lookup bytes_eq
taken = refl

preshared : ComponentConfig
preshared = record { type = codes "preshared"; options = [] }

in_order :
    register_all private_keys [] ≡ some ((codes "preshared", 2) ∷ (codes "autogenerated", 1) ∷ [])
unfolding register_all register lookup insert bytes_eq
in_order = refl
