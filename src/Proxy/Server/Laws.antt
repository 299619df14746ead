-- ===== src/Proxy/Server/Laws.antt =====
-- When the proxy serves TLS, and which certificates it trusts.
use mathlib.Core.Path.{subst}
use jwtproxy.Common.{
  ◌≡◌, ◌≢◌, ◌↔◌, inl, inr, false, Option, none, some, List, [], ◌∷◌, Bytes, codes, bytes_eq_iff,
  arith,
}
use jwtproxy.Common.Affix.{has_prefix}
use jwtproxy.Common.Result.{Result, ok, Result-cases}
use jwtproxy.Proxy.Server.{tls, choose_listener, load_certificates, root_certificates}

-- The proxy terminates TLS exactly if the address is no UNIX socket and both files
-- are given.
choose_listener-tls_iff :
    (listen_addr crt_file key_file : Bytes)
    → (choose_listener listen_addr crt_file key_file ≡ ok (tls listen_addr crt_file key_file))
      ↔ ((has_prefix listen_addr (codes "unix:") ≡ false) × (crt_file ≢ []) × (key_file ≢ []))
unfolding choose_listener
choose_listener-tls_iff listen_addr crt_file key_file =
    ground (arith, bytes_eq_iff crt_file [], bytes_eq_iff key_file [])

-- the files were all read, in order
abbrev pub AllRead : (Bytes → Result Bytes) → List Bytes → List Bytes → Type 0
AllRead read_file [] [] = Unit
AllRead read_file [] (c ∷ cs) = ⊥
AllRead read_file (p ∷ ps) [] = ⊥
AllRead read_file (p ∷ ps) (c ∷ cs) = (read_file p ≡ ok c) × AllRead read_file ps cs

load_certificates-AllRead :
    (read_file : Bytes → Result Bytes) (paths cs : List Bytes)
    → load_certificates read_file paths ≡ ok cs
    → AllRead read_file paths cs
unfolding load_certificates
load_certificates-AllRead read_file [] [] h = tt
load_certificates-AllRead read_file [] (c ∷ cs) h = ground arith
load_certificates-AllRead read_file (p ∷ ps) cs h = elim (Result-cases (read_file p)) [
  | inr (x, e) ↦ cc (rw (e, load_certificates) at h)
  | inl (c, e) ↦ elim (Result-cases (load_certificates read_file ps)) [
    | inr (x, f) ↦ cc (rw (e, f, load_certificates) at h)
    | inl (ds, f) ↦
        let same : c ∷ ds ≡ cs = ground arith in
        subst (AllRead read_file (p ∷ ps)) same (e, load_certificates-AllRead read_file ps ds f)
  ]
]

-- The proxy trusts the system's certificates exactly if no file is named, and else exactly those of the
-- files, all of which it has read.
pub root_certificates-AllRead :
    (read_file : Bytes → Result Bytes) (paths : List Bytes) (pool : Option (List Bytes))
    → root_certificates read_file paths ≡ ok pool
    → ((pool ≡ none) ↔ (paths ≡ []))
      × ((cs : List Bytes) → pool ≡ some cs → AllRead read_file paths cs)
unfolding root_certificates
root_certificates-AllRead read_file [] pool h = (ground arith, λ cs e. ground arith)
root_certificates-AllRead read_file (p ∷ ps) pool h =
    elim (Result-cases (load_certificates read_file (p ∷ ps))) [
      | inr (x, e) ↦ cc (rw (e, root_certificates) at h)
      | inl (ds, e) ↦
          (ground arith, λ cs f. load_certificates-AllRead read_file (p ∷ ps) cs (ground arith))
    ]
