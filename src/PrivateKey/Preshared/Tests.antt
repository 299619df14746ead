-- ===== src/PrivateKey/Preshared/Tests.antt =====
-- Key files in which the first byte is the type of the block, and the rest is the key.
use jwtproxy.Common.{
  ◌==◌, if◌then◌else◌, ◌≡◌, refl, Option, none, some, [], ◌∷◌, Bytes, codes, bytes_eq,
}
use jwtproxy.Common.Result.{Error, Result, ok, err, message}
use jwtproxy.PrivateKey.Preshared.{RsaFiles, checked_key, load_rsa_key}

abbrev block : Bytes → Option Bytes
block [] = none
block (c ∷ s) = some (c ∷ s)

-- The kinds of a block: "R" is an RSA private key.
abbrev kind : Bytes → Bytes
kind [] = []
kind (c ∷ s) = if c == 82 then codes "RSA PRIVATE KEY" else codes "EC PRIVATE KEY"

abbrev behind : Bytes → Result Bytes
behind [] = err (message (codes "asn1: syntax error"))
behind (c ∷ s) = ok s

-- The empty key is invalid.
abbrev invalid : Bytes → Option Error
invalid [] = some (message (codes "invalid modulus"))
invalid (c ∷ s) = none

-- The path is the contents.
abbrev files : RsaFiles Bytes
files = record {
  read_file = λ path. ok path;
  Block = Bytes;
  decode = block;
  block_type = kind;
  parse = behind;
  validate = invalid;
  precompute = λ key. key;
}

loaded : load_rsa_key files (codes "Rkey") ≡ ok (codes "key")
unfolding load_rsa_key checked_key bytes_eq
loaded = refl

not_rsa :
    load_rsa_key files (codes "Ekey") ≡ err (message (codes "unknown key type : EC PRIVATE KEY"))
unfolding load_rsa_key bytes_eq
not_rsa = refl

not_valid : load_rsa_key files (codes "R") ≡ err (message (codes "invalid modulus"))
unfolding load_rsa_key checked_key bytes_eq
not_valid = refl

no_block : load_rsa_key files [] ≡ err (message (codes "bad private key data"))
unfolding load_rsa_key
no_block = refl
