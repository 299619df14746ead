-- ===== src/KeyRegistry/Tests.antt =====
-- The client of the key registry, against a registry that has one key.
use jwtproxy.Common.{
  ℕ, ◌+◌, ◌*◌, ◌≡◌, ◌⊎◌, refl, Option, none, some, [], ◌∷◌, Bytes, codes, bytes_eq, lookup,
}
use jwtproxy.Common.Int.{pos, ◌+ℤ◌}
use jwtproxy.Common.Result.{Error, ok}
use jwtproxy.Http.{
  Request, header_add, header_del, header_set, http_ok, http_accepted, http_conflict,
  http_no_content,
}
use jwtproxy.Time.{minutes}
use jwtproxy.Time.Ticking.{ticking}
use jwtproxy.Nonce.{generate_nonce}
use jwtproxy.Jwt.Library.{Jose}
use jwtproxy.Jwt.Plain.{plain, upstream}
use jwtproxy.Jwt.Sign.{Entropy, sign}
use jwtproxy.KeyRegistry.{
  Client, NetLib, Do, key_url, abs_url, prepare_request, read_response, fetch, get_public_key,
  sign_and_do, delete_public_key,
}
use jwtproxy.KeyServer.PublishResult.{set_result}
use jwtproxy.Common.Result.{message}
use jwtproxy.KeyRegistry.Publish.{
  publish_public_key, handle_response, monitor, poll, check_status, KeyPolicy, ticks, cancels,
  crashed, finished, publish_url,
}
use jwtproxy.KeyRegistry.Publish.Laws.{IsOnce, published, set_to, publish-IsOnce, publish_ends}

abbrev jose : Jose
jose = plain [] (codes "ok")

abbrev pub lib : NetLib Unit
lib = record {
  parse = λ s. ok upstream;
  resolve_reference = λ base u. u;
  query = λ u. [];
  encode = λ q. [];
  new_request = λ m u b. ok (record { method = m; url = u; header = []; body = b });
  marshal_key = λ k. ok [];
  decode_key = λ b. ok tt;
}

abbrev pub krc : Client
krc = record {
  registry = upstream;
  signer_params = record {
    issuer = codes "jwtproxy";
    expiration_time = minutes 1;
    max_skew = minutes 1;
    nonce_length = pos 0;
  };
}

-- The registry answers every request with the status that its state is.
abbrev pub answers : Do ℕ
answers r n = (ok (record { status = n; body = [] }), n)

abbrev got : Bytes → Request
got method = record {
  method = method;
  url = upstream;
  header = (codes "User-Agent", codes "KeyRegistryClient/0.1.0") ∷ [];
  body = [];
}

evaluation : Unit {0}
unfolding get_public_key fetch abs_url prepare_request read_response sign_and_do delete_public_key
    bytes_eq header_add header_del header_set lookup sign generate_nonce ◌+ℤ◌
evaluation = tt

found :
    get_public_key jose lib answers krc (codes "jwtproxy") (codes "k1") http_ok
    ≡ some (ok tt, http_ok)
unfolding evaluation
found = refl

at_url : key_url jose lib krc (codes "jwtproxy") (codes "k1") ≡ some upstream
unfolding evaluation
at_url = refl

prepared : prepare_request jose lib (codes "GET") upstream [] ≡ ok (got (codes "GET"))
unfolding evaluation
prepared = refl

abbrev pub entropy : Entropy ticking ℕ
entropy = record { time = 1000 * 1000000000; source = 0 }

abbrev pub counting : ℕ → ℕ × ℕ
counting s = (s, s + 1)

abbrev later : Entropy ticking ℕ
later = record { time = 1000 * 1000000000 + 3; source = 1 }

deleted :
    delete_public_key jose lib answers ticking counting krc tt (entropy, http_no_content)
    ≡ some (none, (later, http_no_content))
unfolding evaluation
deleted = refl

abbrev pub policy : KeyPolicy
policy = record { expiration = none; rotation_policy = none }

-- keys with ids of ten bytes
abbrev pub long_jose : Jose
long_jose = record jose {
  public_key_id = λ k. codes "0123456789";
  private_key_id = λ k. codes "0123456789";
}

-- The first answer is the state, and a key that is polled for waits for its approval.
abbrev undecided : Do ℕ
undecided r n = (ok (record { status = n; body = [] }), http_conflict)

-- After two polls that decide nothing the publication is canceled.
canceled :
    published long_jose lib undecided ticking counting krc tt policy tt
      (ticks ∷ ticks ∷ cancels ∷ ticks ∷ [])
      entropy
      http_accepted
    ≡ finished (set_to (some (message (codes "Key publication monitor canceled"))))
unfolding publish_public_key handle_response monitor poll check_status set_result abs_url
    prepare_request sign_and_do bytes_eq header_add header_del header_set lookup sign generate_nonce
    ◌+ℤ◌
canceled = refl

publish_ends_example :
    (published long_jose lib undecided ticking counting krc tt policy tt
        (ticks ∷ ticks ∷ cancels ∷ ticks ∷ [])
        entropy
        http_accepted
      ≡ crashed)
    ⊎ (v : Option Error) × (published long_jose lib undecided ticking counting krc tt policy tt
          (ticks ∷ ticks ∷ cancels ∷ ticks ∷ [])
          entropy
          http_accepted
        ≡ finished (set_to v))
publish_ends_example =
    publish_ends long_jose lib undecided ticking counting krc tt policy tt
      (ticks ∷ ticks ∷ cancels ∷ ticks ∷ []) entropy http_accepted refl

publish-IsOnce_example :
    (published long_jose lib answers ticking counting krc tt policy tt
        (ticks ∷ [])
        entropy
        http_accepted
      ≡ crashed)
    ⊎ IsOnce (
        published long_jose lib answers ticking counting krc tt policy tt
          (ticks ∷ [])
          entropy
          http_accepted)
publish-IsOnce_example =
    publish-IsOnce long_jose lib answers ticking counting krc tt policy tt (ticks ∷ []) entropy
      http_accepted

key_at : key_url jose lib krc (codes "jwtproxy") (codes "key-1") ≡ some upstream
unfolding evaluation
key_at = refl

put :
    sign_and_do jose lib answers ticking counting krc
      (codes "PUT")
      (publish_url jose lib answers policy upstream)
      []
      tt
      (entropy, http_accepted)
    ≡ some (ok (record { status = http_accepted; body = [] }), (later, http_accepted))
unfolding evaluation
put = refl
