-- ===== src/Proxy/Construct.antt =====
-- `NewJWTSignerHandler` and `NewJWTVerifierHandler` of jwt/proxy_handlers.go: what the handlers are made of,
-- and what stops with them.
pub mod Laws
use jwtproxy.Common.{
  ◌++◌, Option, none, some, List, [], ◌∷◌, Bytes, codes, bytes_eq, map, if◌then◌else◌,
}
use jwtproxy.Common.Result.{Error, Result, ok, err, message, text}
use jwtproxy.Http.{Url}
use jwtproxy.Config.{ComponentConfig, SignerParams, SignerConfig, VerifierConfig}
use jwtproxy.Registry.{Constructor, SignerConstructor}
use jwtproxy.Stop.{StopperFunc, Group, new_group, add_func}

-- A component as its constructor returns it: what the handler uses, and its `Stop`.
pub record Component (W A : Type 0) : Type 0 where
  pub impl : A
  pub stop_func : StopperFunc W

-- `StoppableProxyHandler` of the signer: its handler asks this provider.
pub record SignerHandler (W PrivateKeys : Type 0) : Type 0 where
  pub provider : Component W PrivateKeys
  pub params : SignerParams
  pub stop_func : StopperFunc W

unfoldable pub new_signer_handler :
    {W PrivateKeys : Type 0}
    → SignerConstructor W (Component W PrivateKeys)
    → SignerConfig
    → W
    → Result (SignerHandler W PrivateKeys) × W
new_signer_handler new_private_key cfg w =
    if bytes_eq cfg.private_key.type []
    then (err (message (codes "no private key provider specified")), w)
    else (let (made, w') = new_private_key cfg.private_key cfg.params w in
        elim made [
          | err e ↦ (err e, w')
          | ok provider ↦ (
            ok (record {
              provider = provider;
              params = cfg.params;
              stop_func = provider.stop_func;
            }),
            w',
          )
        ])

-- `StoppableProxyHandler` of the verifier: what its handler uses, and the group that stops it.
pub record VerifierHandler (W Reader Nonces Verifier : Type 0) : Type 0 where
  pub upstream : Url
  pub audience : Url
  pub key_server : Component W Reader
  pub nonce_storage : Component W Nonces
  pub verifiers : List (Component W Verifier)
  pub stopper : Group W

-- Lines 74 to 83.
unfoldable pub check_config : VerifierConfig → Result (Url × Url)
check_config cfg = elim cfg.upstream [
  | none ↦ err (message (codes "no upstream specified"))
  | some upstream ↦ elim cfg.audience [
    | none ↦ err (message (codes "no audience specified"))
    | some audience ↦
        if bytes_eq cfg.key_server.type []
        then err (message (codes "no key server specified"))
        else ok (upstream, audience)
  ]
]

-- no claims verifiers, also where the configuration has nil
abbrev pub verifier_configs : Option (List ComponentConfig) → List ComponentConfig
verifier_configs none = []
verifier_configs (some cfgs) = cfgs

module _ {W Verifier : Type 0} (new_verifier : Constructor W (Component W Verifier)) where
  -- Lines 105 to 120: the verifiers in order, each added to the group.
  unfoldable pub new_verifiers :
      List ComponentConfig → Group W → W → Result (List (Component W Verifier) × Group W) × W
  new_verifiers [] stopper w = (ok ([], stopper), w)
  new_verifiers (cfg ∷ cfgs) stopper w =
      let (made, w') = new_verifier cfg w in
      elim made [
        | err e ↦ (err (message (codes "could not instantiate claim verifier: " ++ text e)), w')
        | ok v ↦
            let (rest, w'') = new_verifiers cfgs (add_func stopper v.stop_func) w' in
            elim rest [ err e ↦ (err e, w'') | ok (vs, stopper') ↦ (ok (v ∷ vs, stopper'), w'') ]
      ]

  module _ {Reader Nonces : Type 0} (new_reader : Constructor W (Component W Reader))
      (new_nonce_storage : Constructor W (Component W Nonces)) where
    -- The errors after the key server leave what was made before them running.
    unfoldable pub new_verifier_handler :
        VerifierConfig → W → Result (VerifierHandler W Reader Nonces Verifier) × W
    new_verifier_handler cfg w = elim (check_config cfg) [
      | err e ↦ (err e, w)
      | ok (upstream, audience) ↦
          let (reader, w1) = new_reader cfg.key_server w in
          elim reader [
            | err e ↦ (err e, w1)
            | ok key_server ↦
                let (nonces, w2) = new_nonce_storage cfg.nonce_storage w1 in
                elim nonces [
                  | err e ↦ (err e, w2)
                  | ok nonce_storage ↦
                      let (made, w3) =
                        new_verifiers (verifier_configs cfg.claims_verifiers)
                          (add_func (add_func new_group key_server.stop_func)
                            nonce_storage.stop_func)
                          w2 in
                      elim made [
                        | err e ↦ (err e, w3)
                        | ok (verifiers, stopper) ↦ (
                          ok (record {
                            upstream = upstream;
                            audience = audience;
                            key_server = key_server;
                            nonce_storage = nonce_storage;
                            verifiers = verifiers;
                            stopper = stopper;
                          }),
                          w3,
                        )
                      ]
                ]
          ]
    ]
