-- ===== src/Registry/Laws.antt =====
-- Registering the components of a program: which registrations succeed and what is found then.
use jwtproxy.Common.{◌≡◌, ◌⊎◌, Option, none, some, List, [], ◌∷◌, Bytes, lookup}
use jwtproxy.Registry.{Table}

module _ {C : Type 0} where
  -- no name occurs twice
  abbrev pub IsDistinct : List (Bytes × C) → Type 0
  IsDistinct [] = Unit
  IsDistinct ((name, c) ∷ rest) = (lookup name rest ≡ none) × IsDistinct rest

  abbrev first : Option C → Option C → Option C
  first none o = o
  first (some c) o = some c

  -- no name is in both
  abbrev IsApart : List (Bytes × C) → Table C → Type 0
  IsApart cs table = (k : Bytes) → (lookup k cs ≡ none) ⊎ (lookup k table ≡ none)
