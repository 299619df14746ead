-- ===== src/PrivateKey/Files/Laws.antt =====
-- A key that was saved is loaded again.
mod Tests
use jwtproxy.Common.{◌≡◌, refl, inl, inr, Option-cases, Option, none, some, [], Bytes, arith}
use jwtproxy.Common.Result.{Result, ok, err, Result-cases}
use jwtproxy.PrivateKey.Files.{Files, JwkLib, PrivateKey, load_private_key, save_private_key}

module _ {F RsaKey : Type 0} (files : Files F) (jwk : JwkLib RsaKey) where
  -- A file that was opened to be emptied is empty; what is written to an empty file is read from it, when
  -- the write is complete; and a key that was marshalled is unmarshalled.
  pub record IsFaithful : Type 0 where
    pub emptied :
        (path : Bytes) (f : F)
        → (files.open_empty path f).0 ≡ none
        → files.read_file path (files.open_empty path f).1 ≡ ok []
    pub written :
        (path contents : Bytes) (f : F)
        → files.read_file path f ≡ ok []
        → files.read_file path (files.write path contents f) ≡ ok contents
    pub decoded :
        (id : Bytes) (rsa : RsaKey) (json : Bytes)
        → jwk.marshal id rsa ≡ ok json
        → jwk.unmarshal json ≡ ok (id, some rsa)

  -- A key that is saved with no error is loaded from there with its id, if it validates, opening the
  -- file for the save leaves it empty, a write to an empty file leaves what was written, and the
  -- encoding loses nothing.
  pub load-save :
      (key : PrivateKey RsaKey) (path : Bytes) (f f' : F)
      → IsFaithful
      → jwk.validate key.rsa ≡ none
      → save_private_key files jwk key path f ≡ (none, f')
      → load_private_key files jwk path f' ≡ some (ok (record key { rsa = jwk.precompute key.rsa }))
  unfolding load_private_key save_private_key
  load-save key path f f' laws valid h =
      elim (Option-cases (files.mkdir_all (files.dir path) f).0) [
        | inr (x, e) ↦ cc (rw (e, save_private_key) at h)
        | inl e ↦
            let f1 = (files.mkdir_all (files.dir path) f).1 in
            elim (Option-cases (files.open_empty path f1).0) [
              | inr (x, g) ↦ cc (rw (e, g, save_private_key) at h)
              | inl g ↦ elim (Result-cases (jwk.marshal key.key_id key.rsa)) [
                | inr (x, m) ↦ cc (rw (e, g, m, save_private_key) at h)
                | inl (json, m) ↦
                    let f2 = (files.open_empty path f1).1 in
                    let same : files.write path json f2 ≡ f' = ground arith in
                    rw (← same) (
                      rw
                        (
                          laws.written path json f2 (laws.emptied path f1 g),
                          laws.decoded key.key_id key.rsa json m,
                          valid,
                          load_private_key,
                        )
                        refl)
              ]
            ]
      ]
