-- ===== src/Proxy/Construct/Laws.antt =====
-- A verifier's handler stops everything that it was made of.
mod Tests
use mathlib.Core.List.{append_assoc, append-nil}
use jwtproxy.Common.{
  ◌≡◌, refl, ◌∙◌, sym, inl, inr, Bool-cases, Option-cases, ◌++◌, Option, none, some, List, [], ◌∷◌,
  Bytes, codes, bytes_eq, map, arith,
}
use jwtproxy.Common.Result.{Error, Result, ok, err, Result-cases, ok_injective}
use jwtproxy.Http.{Url}
use jwtproxy.Config.{ComponentConfig, VerifierConfig}
use jwtproxy.Registry.{Constructor}
use jwtproxy.Stop.{StopperFunc, Group, new_group, add_func}
use jwtproxy.Proxy.Construct.{
  Component, VerifierHandler, check_config, verifier_configs, new_verifiers, new_verifier_handler,
}

abbrev pub stop_funcs : {W A : Type 0} → List (Component W A) → List (StopperFunc W)
stop_funcs cs = map (λ (c : Component _ _). c.stop_func) cs

check_config_ok :
    (cfg : VerifierConfig) (upstream audience : Url)
    → check_config cfg ≡ ok (upstream, audience)
    → (cfg.upstream ≡ some upstream) × (cfg.audience ≡ some audience)
unfolding check_config
check_config_ok cfg upstream audience h = elim (Option-cases cfg.upstream) [
  | inl e ↦ cc (rw (e, check_config) at h)
  | inr (u, e) ↦ elim (Option-cases cfg.audience) [
    | inl f ↦ cc (rw (e, f, check_config) at h)
    | inr (a, f) ↦ elim (Bool-cases (bytes_eq cfg.key_server.type [])) [
      | inl g ↦ cc (rw (e, f, g, check_config) at h)
      | inr g ↦ (ground arith, ground arith)
    ]
  ]
]

module _ {W Verifier : Type 0} (new_verifier : Constructor W (Component W Verifier)) where
  new_verifiers-stop :
      (cfgs : List ComponentConfig) (stopper stopper' : Group W) (w : W)
      (vs : List (Component W Verifier))
      → (new_verifiers new_verifier cfgs stopper w).0 ≡ ok (vs, stopper')
      → stopper'.stoppables ≡ stopper.stoppables ++ stop_funcs vs
  unfolding new_verifiers add_func
  new_verifiers-stop [] stopper stopper' w vs h =
      let none_made : [] ≡ vs = ground arith in
      let same : stopper ≡ stopper' = ground arith in
      rw (← none_made, ← same) (sym (append-nil stopper.stoppables))
  new_verifiers-stop (cfg ∷ cfgs) stopper stopper' w vs h =
      elim (Result-cases (new_verifier cfg w).0) [
        | inr (x, e) ↦ cc (rw (e, new_verifiers) at h)
        | inl (v, e) ↦
            let w' = (new_verifier cfg w).1 in
            elim (Result-cases
              (new_verifiers new_verifier cfgs (add_func stopper v.stop_func) w').0) [
                | inr (x, f) ↦ cc (rw (e, f, new_verifiers) at h)
                | inl ((rest, last), f) ↦
                    let made : v ∷ rest ≡ vs = ground arith in
                    let same : last ≡ stopper' = ground arith in
                    rw (← made, ← same)
                      (new_verifiers-stop cfgs (add_func stopper v.stop_func) last w' rest f
                        ∙ append_assoc stopper.stoppables (v.stop_func ∷ []) (stop_funcs rest))
              ]
      ]

  module _ {Reader Nonces : Type 0} (new_reader : Constructor W (Component W Reader))
      (new_nonce_storage : Constructor W (Component W Nonces)) where
    -- A verifier's handler that was made has the configured upstream and audience, and its group stops the
    -- key server, the nonce storage and every claims verifier, in this order and nothing else.
    pub new_verifier_handler_stops :
        (cfg : VerifierConfig) (w : W) (h : VerifierHandler W Reader Nonces Verifier)
        → (new_verifier_handler new_verifier new_reader new_nonce_storage cfg w).0 ≡ ok h
        → (cfg.upstream ≡ some h.upstream)
          × (cfg.audience ≡ some h.audience)
          × (h.stopper.stoppables
              ≡ h.key_server.stop_func ∷ h.nonce_storage.stop_func ∷ stop_funcs h.verifiers)
    unfolding new_verifier_handler add_func
    new_verifier_handler_stops cfg w h made = elim (Result-cases (check_config cfg)) [
      | inr (x, e) ↦ cc (rw (e, new_verifier_handler) at made)
      | inl ((upstream, audience), e) ↦ elim (Result-cases (new_reader cfg.key_server w).0) [
        | inr (x, f) ↦ cc (rw (e, f, new_verifier_handler) at made)
        | inl (key_server, f) ↦
            let w1 = (new_reader cfg.key_server w).1 in
            elim (Result-cases (new_nonce_storage cfg.nonce_storage w1).0) [
              | inr (x, g) ↦ cc (rw (e, f, g, new_verifier_handler) at made)
              | inl (nonces, g) ↦
                  let w2 = (new_nonce_storage cfg.nonce_storage w1).1 in
                  let group = add_func (add_func new_group key_server.stop_func) nonces.stop_func in
                  elim (Result-cases
                    (new_verifiers new_verifier (verifier_configs cfg.claims_verifiers) group
                      w2).0) [
                        | inr (x, i) ↦ cc (rw (e, f, g, i, new_verifier_handler) at made)
                        | inl ((vs, stopper), i) ↦
                            let same : record {
                              upstream = upstream;
                              audience = audience;
                              key_server = key_server;
                              nonce_storage = nonces;
                              verifiers = vs;
                              stopper = stopper;
                            }
                                ≡ h =
                              ok_injective (rw (e, f, g, i, new_verifier_handler) at made) in
                            let (up, aud) = check_config_ok cfg upstream audience e in
                            rw (← same) (
                              up,
                              aud,
                              new_verifiers-stop (verifier_configs cfg.claims_verifiers) group
                                  stopper w2 vs i,
                            )
                      ]
            ]
      ]
    ]
