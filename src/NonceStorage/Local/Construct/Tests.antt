-- ===== src/NonceStorage/Local/Construct/Tests.antt =====
-- Options that are kept as they are.
use jwtproxy.Common.{arith, ◌≡◌, refl, none, [], ◌∷◌, Bytes, codes, bytes_eq, lookup}
use jwtproxy.Common.Int.{pos}
use jwtproxy.Common.Result.{Result, ok, err, message}
use jwtproxy.Value.{Value, str, int}
use jwtproxy.Time.{Duration, minutes}
use jwtproxy.Yaml.{YamlLib, field}
use jwtproxy.NonceStorage.Local.Construct.{
  no_expiration, construct_local, default_options, AddsNoName,
}

abbrev read_duration : Value → Result Duration
read_duration (int n) = ok n
read_duration v = err (message (codes "cannot unmarshal"))

abbrev read_string : Value → Result Bytes
read_string (str s) = ok s
read_string v = err (message (codes "cannot unmarshal"))

abbrev kept : YamlLib
kept = record {
  reencode = λ options. ok options;
  string = read_string;
  duration = read_duration;
  url = λ v. ok none;
  component = λ v. ok (record { type = []; options = [] });
}

kept-AddsNoName : AddsNoName kept
unfolding AddsNoName
kept-AddsNoName options o name h gone = ground arith

named :
    construct_local kept ((codes "purge_interval", int (minutes 1)) ∷ [])
    ≡ ok (record { default_expiration = no_expiration; purge_interval = minutes 1 })
unfolding construct_local field lookup bytes_eq
named = refl

-- The default of the configuration stands under a name that is not read.
default_ignored :
    construct_local kept default_options
    ≡ ok (record { default_expiration = no_expiration; purge_interval = pos 0 })
unfolding construct_local field lookup bytes_eq
default_ignored = refl
