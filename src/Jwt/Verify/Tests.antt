-- ===== src/Jwt/Verify/Tests.antt =====
-- Runs of `Verify`, and its theorems at concrete requests.
use jwtproxy.Common.{
  ℕ, suc, ◌+◌, ◌*◌, true, ◌≡◌, ◌≢◌, refl, [], ◌∷◌, Bytes, codes, lookup, bytes_eq, arith,
}
use jwtproxy.Common.Int.{pos, ◌+ℤ◌}
use jwtproxy.Common.Result.{ok, err, message}
use jwtproxy.Http.{header_get}
use jwtproxy.Value.{Claims, str, int64}
use jwtproxy.Time.{Time, minutes, add, sub, negate, from_unix}
use jwtproxy.Time.Ticking.{ticking}
use jwtproxy.NonceStorage.Local
use jwtproxy.NonceStorage.Local.{World, local_storage, look, store, run, step, purge}
use jwtproxy.NonceStorage.Local.Listed.{listed}
use jwtproxy.KeyServer.{NonceStorage}
use jwtproxy.Jwt.Plain.{plain, upstream, one_url, bearing, serve_key, new_to_all}
use jwtproxy.Jwt.Verify.{
  Token, Subject, verify, parse_token, check_claims, check_times, check_signature, verify_nonce,
  verify_key, verify_audience,
}
use jwtproxy.Jwt.Verify.Checked.{IsChecked, IsPresent, IsOrdinary}
use jwtproxy.Jwt.Verify.Accepted.{
  IsAccepted, IsParsed, verify_sound, verify_complete, verify_records_nonce,
}
use jwtproxy.Jwt.Verify.Replay.{read_clock, IsSeparate, verify_once}

-- a token for http://a.b, issued at 1000 s and good until 1060 s
abbrev pub claims : Claims
claims =
    (codes "iss", str (codes "jwtproxy"))
    ∷ (codes "aud", str (codes "http://a.b"))
    ∷ (codes "iat", int64 (pos 1000))
    ∷ (codes "nbf", int64 (pos 990))
    ∷ (codes "exp", int64 (pos 1060))
    ∷ (codes "jti", str (codes "n1"))
    ∷ []

abbrev clock : ℕ → Time × ℕ
clock n = (pos n, n)

abbrev pub now : ℕ
now = 1005 * 1000000000

-- Its line names what a run looks into.
unfoldable pub evaluation : Unit {0}
unfolding verify parse_token check_claims check_times verify_nonce verify_key check_signature
    verify_audience lookup bytes_eq from_unix add sub negate header_get local_storage Local.verify
    look store run ◌+ℤ◌
evaluation = tt

accepted :
    (verify one_url
      (plain claims (codes "ok"))
      clock
      serve_key
      new_to_all
      bearing
      upstream
      (minutes 5)
      (minutes 5)
      now).0
    ≡ ok claims
unfolding evaluation
accepted = refl

expired :
    (verify one_url
      (plain claims (codes "ok"))
      clock
      serve_key
      new_to_all
      bearing
      upstream
      (minutes 5)
      (minutes 5)
      (now + now)).0
    ≡ err (message (codes "Missing or invalid 'exp' claim"))
unfolding evaluation
expired = refl

forged :
    (verify one_url
      (plain claims (codes "no"))
      clock
      serve_key
      new_to_all
      bearing
      upstream
      (minutes 5)
      (minutes 5)
      now).0
    ≡ err (message (codes "Invalid JWT signature"))
unfolding evaluation
forged = refl

pub five_minutes-IsOrdinary : IsOrdinary (minutes 5)
five_minutes-IsOrdinary = record { above = omega arith; below = omega arith }

verify_sound_example :
    (t : Token (plain claims (codes "ok"))) × IsAccepted one_url
      (plain claims (codes "ok"))
      clock
      serve_key
      new_to_all
      bearing
      upstream
      (minutes 5)
      (minutes 5)
      now
      t
    × (claims ≡ t.claims)
verify_sound_example =
    verify_sound one_url (plain claims (codes "ok")) clock serve_key new_to_all bearing upstream
      (minutes 5) (minutes 5) now claims five_minutes-IsOrdinary five_minutes-IsOrdinary accepted

abbrev pub token : (sig : Bytes) → Token (plain claims sig)
token sig = record { jwt = claims; claims = claims }

abbrev pub subject : Subject
subject = record { kid = codes "key-1"; iss = codes "jwtproxy"; exp = pos (1060 * 1000000000) }

pub parsed : (sig : Bytes) → IsParsed (plain claims sig) bearing (token sig)
unfolding lookup bytes_eq header_get
parsed sig = record { bearer = codes "token"; extracted = refl; parsed = refl; read = refl }

pub checked :
    (sig : Bytes)
    → IsChecked one_url
        (plain claims sig)
        (pos now)
        upstream
        (minutes 5)
        (minutes 5)
        (token sig)
        subject
unfolding lookup bytes_eq from_unix ◌+ℤ◌
checked sig = record {
  kid = refl;
  has_iss = record { found = refl; no_error = refl };
  iss = refl;
  has_aud = record { found = refl; no_error = refl };
  aud = (upstream, refl, refl);
  timely = record {
    has_exp = record { found = refl; no_error = refl };
    has_nbf = record { found = refl; no_error = refl };
    has_iat = record { found = refl; no_error = refl };
    not_expired = omega arith;
    not_early = omega arith;
    issued = omega arith;
    short = omega arith;
  };
  exp = refl;
}

pub jti-IsPresent : (sig : Bytes) → IsPresent ((plain claims sig).string_claim claims (codes "jti"))
unfolding lookup bytes_eq
jti-IsPresent sig = record { found = refl; no_error = refl }

acceptance :
    IsAccepted one_url
      (plain claims (codes "ok"))
      clock
      serve_key
      new_to_all
      bearing
      upstream
      (minutes 5)
      (minutes 5)
      now
      (token (codes "ok"))
unfolding bytes_eq
acceptance = record {
  parsed = parsed (codes "ok");
  subject = subject;
  checked = checked (codes "ok");
  has_jti = jti-IsPresent (codes "ok");
  fresh = refl;
  key = tt;
  served = refl;
  signed = record { verifier = tt; made = refl; valid = refl };
}

verify_complete_example :
    verify one_url
      (plain claims (codes "ok"))
      clock
      serve_key
      new_to_all
      bearing
      upstream
      (minutes 5)
      (minutes 5)
      now
    ≡ (ok claims, now)
verify_complete_example =
    verify_complete one_url (plain claims (codes "ok")) clock serve_key new_to_all bearing upstream
      (minutes 5) (minutes 5) now (token (codes "ok")) five_minutes-IsOrdinary
      five_minutes-IsOrdinary acceptance

-- the signature is wrong, and the nonce is recorded: a storage that counts the nonces
abbrev counting : NonceStorage ℕ
counting = record { verify = λ n e w. (true, suc w) }

abbrev at : ℕ → Time × ℕ
at n = (pos now, n)

verify_records_nonce_example :
    (verify one_url
      (plain claims (codes "no"))
      at
      serve_key
      counting
      bearing
      upstream
      (minutes 5)
      (minutes 5)
      0).1
    ≡ 1
verify_records_nonce_example =
    verify_records_nonce one_url (plain claims (codes "no")) at serve_key counting bearing upstream
      (minutes 5) (minutes 5) 0 (token (codes "no")) subject five_minutes-IsOrdinary
      five_minutes-IsOrdinary (parsed (codes "no")) (checked (codes "no"))
      (jti-IsPresent (codes "no")) refl

abbrev start : World ticking listed
start = record { cache = []; time = now }

separate : IsSeparate ticking listed (serve_key {W = World ticking listed})
separate = record { same_cache = λ i k w. refl; later = λ i k w. omega arith }

verify_once_example :
    (verify one_url
      (plain claims (codes "ok"))
      (read_clock ticking listed)
      serve_key
      (local_storage ticking listed)
      bearing
      upstream
      (minutes 5)
      (minutes 5)
      (verify one_url
        (plain claims (codes "ok"))
        (read_clock ticking listed)
        serve_key
        (local_storage ticking listed)
        bearing
        upstream
        (minutes 5)
        (minutes 5)
        start).1).0
    ≢ ok claims
unfolding evaluation
verify_once_example =
    verify_once ticking listed one_url (plain claims (codes "ok")) serve_key bearing upstream
      (minutes 5) (minutes 5) start claims claims [] five_minutes-IsOrdinary five_minutes-IsOrdinary
      separate refl (omega arith) (omega arith)
