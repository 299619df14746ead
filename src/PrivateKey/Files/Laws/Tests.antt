-- ===== src/PrivateKey/Files/Laws/Tests.antt =====
-- A file system of one file, and keys that are texts.
use jwtproxy.Common.{◌≡◌, refl, Option, none, some, [], ◌∷◌, Bytes, codes, bytes_eq, arith}
use jwtproxy.Common.Affix.{has_prefix}
use jwtproxy.Common.Result.{Result, ok, err, message}
use jwtproxy.Net.Path.{
  push_byte, split, join_slash, leave, clean_step, clean_from, print, clean, non_empty, path_join,
}
use jwtproxy.PrivateKey.Files.{
  Files, JwkLib, PrivateKey, key_path, base_path, config_path, load_private_key, save_private_key,
}
use jwtproxy.PrivateKey.Files.Laws.{IsFaithful, load-save}

-- What is written takes the place of as many bytes from the start.
abbrev overwrite : Bytes → Bytes → Bytes
overwrite [] f = f
overwrite (c ∷ s) [] = c ∷ s
overwrite (c ∷ s) (d ∷ f) = c ∷ overwrite s f

overwrite-nil : (s f : Bytes) → ok f ≡ ok [] → ok (overwrite s f) ≡ ok s
overwrite-nil [] f e = e
overwrite-nil (c ∷ s) [] e = refl
overwrite-nil (c ∷ s) (d ∷ f) e = cc

abbrev one_file : Files Bytes
one_file = record {
  read_file = λ path f. ok f;
  mkdir_all = λ path f. (none, f);
  open_empty = λ path f. (none, []);
  write = λ path contents f. overwrite contents f;
  dir = λ path. path;
}

-- The id is a single byte.
abbrev first : Bytes → Result (Bytes × Option Bytes)
first [] = err (message (codes "unexpected end of JSON input"))
first (c ∷ s) = ok (c ∷ [], some s)

abbrev marshal : Bytes → Bytes → Result Bytes
marshal [] s = err (message (codes "no id"))
marshal (c ∷ []) s = ok (c ∷ s)
marshal (c ∷ d ∷ id) s = err (message (codes "long id"))

abbrev texts : JwkLib Bytes
texts = record {
  marshal = marshal;
  unmarshal = first;
  validate = λ rsa. none;
  precompute = λ rsa. rsa;
}

decoded : (id rsa json : Bytes) → marshal id rsa ≡ ok json → first json ≡ ok (id, some rsa)
decoded [] rsa json h = cc
decoded (c ∷ []) [] json h = ground arith
decoded (c ∷ []) (r ∷ rs) json h = ground arith
decoded (c ∷ d ∷ id) rsa json h = cc

texts-IsFaithful : IsFaithful one_file texts
texts-IsFaithful = record {
  emptied = λ path f e. refl;
  written = λ path contents f e. overwrite-nil contents f e;
  decoded = decoded;
}

abbrev key : PrivateKey Bytes
key = record { key_id = codes "k"; rsa = codes "secret" }

saved : save_private_key one_file texts key (codes "/k.jwk") [] ≡ (none, codes "ksecret")
unfolding save_private_key
saved = refl

load-save_example :
    load_private_key one_file texts (codes "/k.jwk") (codes "ksecret") ≡ some (ok key)
load-save_example =
    load-save one_file texts key (codes "/k.jwk") [] (codes "ksecret") texts-IsFaithful refl saved

-- A key that cannot be encoded costs the key that was in the file.
lost :
    save_private_key one_file texts (record key { key_id = [] }) (codes "/k.jwk") (codes "ksecret")
    ≡ (some (message (codes "no id")), [])
unfolding save_private_key
lost = refl

in_home :
    key_path (record { xdg_config_home = []; home = codes "/root" }) [] (codes "jwtproxy")
    ≡ codes "/root/.config/jwtproxy/jwtproxy.jwk"
unfolding key_path base_path config_path path_join non_empty clean print clean_from clean_step leave
    join_slash split push_byte bytes_eq has_prefix
in_home = refl
