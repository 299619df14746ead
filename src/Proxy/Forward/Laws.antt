-- ===== src/Proxy/Forward/Laws.antt =====
-- When the forward proxy terminates TLS.
mod Tests
use jwtproxy.Common.{
  ◌≡◌, ◌≢◌, ◌⊎◌, ◌∙◌, ap, refl, inl, inr, Bool-cases, Bool, true, false, ◌||◌, Option, none, some,
  List, [], ◌∷◌, Bytes, bytes_eq, bytes_eq_iff, arith,
}
use jwtproxy.Common.Result.{Error, Result, ok, err, Result-cases}
use jwtproxy.Proxy.Server.{root_certificates}
use jwtproxy.Proxy.Server.Laws.{AllRead, root_certificates-AllRead}
use jwtproxy.Proxy.Forward.{
  CaLib, MitmHandler, rejects, terminates, Proxy, read_ca, mitm_handler, new_proxy,
}

module _ {Pair Leaf : Type 0} (lib : CaLib Pair Leaf) where
  mitm_handler_ok :
      (key_path cert_path : Bytes) (m : MitmHandler lib)
      → mitm_handler lib key_path cert_path ≡ ok m
      → ((key_path ≡ []) ⊎ (cert_path ≡ [])) × (m ≡ rejects)
        ⊎ (pair : Pair) × (leaf : Leaf) × (read_ca lib key_path cert_path ≡ ok (pair, leaf))
          × (m ≡ terminates pair leaf)
  unfolding mitm_handler
  mitm_handler_ok key_path cert_path m h = elim (Bool-cases (bytes_eq key_path [])) [
    | inl e ↦ inl (inl ((bytes_eq_iff key_path []).0 e), ground arith)
    | inr e ↦ elim (Bool-cases (bytes_eq cert_path [])) [
      | inl f ↦ inl (inr ((bytes_eq_iff cert_path []).0 f), ground arith)
      | inr f ↦ elim (Result-cases (read_ca lib key_path cert_path)) [
        | inr (x, g) ↦ cc (rw (e, f, g, mitm_handler) at h)
        | inl ((pair, leaf), g) ↦ inr (pair, leaf, g, ground arith)
      ]
    ]
  ]

  -- A forward proxy that is set up rejects CONNECT requests if the key or the certificate of its authority
  -- is not named, and else terminates their TLS with the pair that the two files hold; and the
  -- servers that it trusts are the system's or those of the named files, all of which were read.
  new_proxy_ok :
      (key_path cert_path : Bytes) (insecure : Bool) (trusted : List Bytes) (p : Proxy lib)
      → new_proxy lib key_path cert_path insecure trusted ≡ ok p
      → (((key_path ≡ []) ⊎ (cert_path ≡ [])) × (p.mitm ≡ some rejects)
          ⊎ (pair : Pair) × (leaf : Leaf) × (read_ca lib key_path cert_path ≡ ok (pair, leaf))
            × (p.mitm ≡ some (terminates pair leaf)))
        × (pool : Option (List Bytes)) × (p.transport ≡ some (insecure, pool))
        × (root_certificates lib.read_file trusted ≡ ok pool)
  unfolding new_proxy
  new_proxy_ok key_path cert_path insecure trusted p h =
      elim (Result-cases (mitm_handler lib key_path cert_path)) [
        | inr (x, e) ↦ cc (rw (e, new_proxy) at h)
        | inl (m, e) ↦ elim (Result-cases (root_certificates lib.read_file trusted)) [
          | inr (x, f) ↦ cc (rw (e, f, new_proxy) at h)
          | inl (roots, f) ↦
              let mitm : p.mitm ≡ some m = ground arith in
              let transport : p.transport ≡ some (insecure, roots) = ground arith in
              (
                elim (mitm_handler_ok key_path cert_path m e) [
                  | inl (missing, g) ↦ inl (missing, mitm ∙ ap some g)
                  | inr (pair, leaf, read, g) ↦ inr (pair, leaf, read, mitm ∙ ap some g)
                ],
                roots,
                transport,
                f,
              )
        ]
      ]
