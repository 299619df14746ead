-- ===== src/Registry.antt =====
-- The tables of constructors that the components register themselves in: jwt/privatekey/privatekey.go,
-- jwt/keyserver/keyserver.go, jwt/noncestorage/noncestorage.go, jwt/claims/verifier.go and
-- jwt/keyserver/keyregistry/keycache/keycache.go. A table is one of Go's package variables.
pub mod Laws
mod Tests
use jwtproxy.Common.{◌++◌, Option, none, some, List, [], ◌∷◌, Bytes, codes, lookup, insert}
use jwtproxy.Common.Result.{Result, ok, err, message}
use jwtproxy.Config.{ComponentConfig, SignerParams}

-- The five packages have the same two functions over a table from names to constructors.
abbrev pub Table : Type 0 → Type 0
Table C = List (Bytes × C)

module _ {C : Type 0} where
  -- `none` is the panic, at a nil constructor and at a name that is taken.
  unfoldable pub register : Bytes → Option C → Table C → Option (Table C)
  register name none table = none
  register name (some c) table = elim (lookup name table) [
    | some dup ↦ none
    | none ↦ some (insert name c table)
  ]

  -- the registrations of several `init` functions, in the order in which Go runs them
  unfoldable pub register_all : List (Bytes × C) → Table C → Option (Table C)
  register_all [] table = some table
  register_all ((name, c) ∷ rest) table = elim (register name (some c) table) [
    | none ↦ none
    | some table' ↦ register_all rest table'
  ]

  -- The look-up of `New`, with what the error calls a constructor. `quote` is fmt's %q.
  unfoldable pub find_constructor :
      (quote : Bytes → Bytes) → Bytes → ComponentConfig → Table C → Result C
  find_constructor quote what cfg table = elim (lookup cfg.type table) [
    | none ↦ err (
        message (
          codes "server: unknown "
          ++ what
          ++ codes " "
          ++ quote cfg.type
          ++ codes " (forgotten import?)"))
    | some c ↦ ok c
  ]

-- A constructor changes the state W of the process, and returns a component or an error.
abbrev pub Constructor : (W A : Type 0) → Type 0
Constructor W A = ComponentConfig → W → Result A × W

abbrev pub SignerConstructor : (W A : Type 0) → Type 0
SignerConstructor W A = ComponentConfig → SignerParams → W → Result A × W

-- the process's state, and a type for each kind of component
pub record Kinds : Type 1 where
  pub State : Type 0
  pub PrivateKey : Type 0
  pub KeyReader : Type 0
  pub Manager : Type 0
  pub Nonces : Type 0
  pub Verifier : Type 0
  pub KeyCache : Type 0

-- the package variables
pub record Registries (k : Kinds) : Type 0 where
  pub privatekeys : List (Bytes × SignerConstructor k.State k.PrivateKey)
  pub readers : List (Bytes × Constructor k.State k.KeyReader)
  pub managers : List (Bytes × SignerConstructor k.State k.Manager)
  pub nonce_storages : List (Bytes × Constructor k.State k.Nonces)
  pub verifiers : List (Bytes × Constructor k.State k.Verifier)
  pub key_caches : List (Bytes × Constructor k.State k.KeyCache)

module _ {k : Kinds} where
  unfoldable pub register_private_key :
      Bytes → Option (SignerConstructor k.State k.PrivateKey) → Registries k → Option (Registries k)
  register_private_key name c g = elim (register name c g.privatekeys) [
    | none ↦ none
    | some t ↦ some (record g { privatekeys = t })
  ]

  unfoldable pub register_reader :
      Bytes → Option (Constructor k.State k.KeyReader) → Registries k → Option (Registries k)
  register_reader name c g = elim (register name c g.readers) [
    | none ↦ none
    | some t ↦ some (record g { readers = t })
  ]

  unfoldable pub register_manager :
      Bytes → Option (SignerConstructor k.State k.Manager) → Registries k → Option (Registries k)
  register_manager name c g = elim (register name c g.managers) [
    | none ↦ none
    | some t ↦ some (record g { managers = t })
  ]

  unfoldable pub register_nonce_storage :
      Bytes → Option (Constructor k.State k.Nonces) → Registries k → Option (Registries k)
  register_nonce_storage name c g = elim (register name c g.nonce_storages) [
    | none ↦ none
    | some t ↦ some (record g { nonce_storages = t })
  ]

  unfoldable pub register_verifier :
      Bytes → Option (Constructor k.State k.Verifier) → Registries k → Option (Registries k)
  register_verifier name c g = elim (register name c g.verifiers) [
    | none ↦ none
    | some t ↦ some (record g { verifiers = t })
  ]

  unfoldable pub register_key_cache :
      Bytes → Option (Constructor k.State k.KeyCache) → Registries k → Option (Registries k)
  register_key_cache name c g = elim (register name c g.key_caches) [
    | none ↦ none
    | some t ↦ some (record g { key_caches = t })
  ]

  module _ (quote : Bytes → Bytes) (g : Registries k) where
    -- `privatekey.New`, `keyserver.NewReader` and so on: the constructor runs on the configuration.
    unfoldable pub new_private_key : SignerConstructor k.State k.PrivateKey
    new_private_key cfg params w =
        elim (find_constructor quote (codes "Constructor") cfg g.privatekeys) [
          | err e ↦ (err e, w)
          | ok c ↦ c cfg params w
        ]

    unfoldable pub new_reader : Constructor k.State k.KeyReader
    new_reader cfg w = elim (find_constructor quote (codes "ReaderConstructor") cfg g.readers) [
      | err e ↦ (err e, w)
      | ok c ↦ c cfg w
    ]

    unfoldable pub new_manager : SignerConstructor k.State k.Manager
    new_manager cfg params w =
        elim (find_constructor quote (codes "ManagerConstructor") cfg g.managers) [
          | err e ↦ (err e, w)
          | ok c ↦ c cfg params w
        ]

    unfoldable pub new_nonce_storage : Constructor k.State k.Nonces
    new_nonce_storage cfg w =
        elim (find_constructor quote (codes "NonceStorage") cfg g.nonce_storages) [
          | err e ↦ (err e, w)
          | ok c ↦ c cfg w
        ]

    unfoldable pub new_verifier : Constructor k.State k.Verifier
    new_verifier cfg w =
        elim (find_constructor quote (codes "Verifier Constructor type") cfg g.verifiers) [
          | err e ↦ (err e, w)
          | ok c ↦ c cfg w
        ]

    unfoldable pub new_key_cache : Constructor k.State k.KeyCache
    new_key_cache cfg w = elim (find_constructor quote (codes "Cache type") cfg g.key_caches) [
      | err e ↦ (err e, w)
      | ok c ↦ c cfg w
    ]
