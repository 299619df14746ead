-- ===== src/Jwt/Sign/Tests.antt =====
-- Runs of `Sign`, and its theorems at concrete requests.
use jwtproxy.Common.{ℕ, ◌+◌, ◌*◌, ◌≡◌, ◌≢◌, refl, some, codes, lookup, bytes_eq, arith}
use jwtproxy.Common.Int.{pos, ◌+ℤ◌}
use jwtproxy.Common.Result.{ok}
use jwtproxy.Value.{Claims}
use jwtproxy.Http.{header_get}
use jwtproxy.Time.{Time, minutes, unix}
use jwtproxy.Time.Ticking.{ticking}
use jwtproxy.Config.{SignerParams}
use jwtproxy.Nonce.{generate_nonce}
use jwtproxy.Jwt.Library.{Jose}
use jwtproxy.Jwt.Plain.{plain, upstream, one_url, request, bearing, serve_key, new_to_all}
use jwtproxy.Jwt.Verify.{verify}
use jwtproxy.Jwt.Verify.Checked.{IsOrdinary}
use jwtproxy.Jwt.Sign.{make_claims, Entropy, add_token, sign}
use jwtproxy.Jwt.Sign.Verified.{IsReadBack, sign_verify}
use jwtproxy.Jwt.Sign.Boundary.{boundary_refused}

abbrev pub params : SignerParams
params = record {
  issuer = codes "jwtproxy";
  expiration_time = minutes 1;
  max_skew = minutes 1;
  nonce_length = pos 3;
}

abbrev pub counting : ℕ → ℕ × ℕ
counting s = (s, s + 199)

-- t0 is 1000 s; the nonce of this source is "adh"
abbrev pub t0 : ℕ
t0 = 1000 * 1000000000

abbrev pub entropy : Entropy ticking ℕ
entropy = record { time = t0; source = 199 }

abbrev claims_at : Time → Time → Time → Claims
claims_at t1 t2 t3 = make_claims request params t1 t2 t3 (codes "adh")

abbrev pub signed : Claims
signed = claims_at (pos (t0 + 1)) (pos (t0 + 2)) (pos (t0 + 3))

abbrev pub jose : Jose
jose = plain signed (codes "ok")

-- the library reads its one JWT back
unfoldable pub read_back : (c : Claims) → IsReadBack (plain c (codes "ok")) c tt c
unfolding lookup bytes_eq
read_back c = record {
  decoded = c;
  bearer = λ r h. rw h;
  parsed = refl;
  read = refl;
  kid = refl;
  strings = λ n v h. rw h;
  times = λ n s h. rw h;
}

pub five_minutes-IsOrdinary : IsOrdinary (minutes 5)
five_minutes-IsOrdinary = record { above = omega arith; below = omega arith }

-- the verifier reads its clock ten seconds later
abbrev pub later : ℕ → Time × ℕ
later n = (pos (n + 10 * 1000000000), n)

sign_verify_example :
    (w : Entropy ticking ℕ) × (sign jose ticking counting request tt params entropy
      ≡ some (ok (add_token jose request signed), w))
    × ((verify one_url jose later serve_key new_to_all
          (add_token jose request signed)
          upstream
          (minutes 5)
          (minutes 5)
          t0).0
        ≡ ok signed)
unfolding lookup bytes_eq generate_nonce ◌+ℤ◌ read_back
sign_verify_example =
    sign_verify jose ticking counting one_url later serve_key new_to_all request tt params entropy
      (codes "adh") 398 signed upstream (minutes 5) (minutes 5) t0 tt refl refl refl
      (read_back signed) five_minutes-IsOrdinary five_minutes-IsOrdinary
      (record {
        first = omega arith;
        second = omega arith;
        sign_skew = omega arith;
        verify_skew = omega arith;
        alive = omega arith;
        short = omega arith;
      })
      (upstream, refl, refl) refl refl (record { verifier = tt; made = refl; valid = refl })

-- Both configurations as they are by default, and a second that passes between the readings.
abbrev default_params : SignerParams
default_params = record params { expiration_time = minutes 5 }

abbrev late : Claims
late =
    make_claims request default_params (pos 1999999999) (pos 2000000000) (pos 2000000001)
      (codes "adh")

boundary_refused_example :
    (verify one_url
      (plain late (codes "ok"))
      later
      serve_key
      new_to_all
      bearing
      upstream
      (minutes 5)
      (minutes 5)
      t0).0
    ≢ ok late
unfolding lookup bytes_eq header_get unix read_back
boundary_refused_example =
    boundary_refused one_url (plain late (codes "ok")) later serve_key new_to_all request
      default_params (pos 1999999999) (pos 2000000000) (pos 2000000001) (codes "adh") tt late
      (read_back late) bearing upstream (minutes 5) (minutes 5) t0 late (omega arith) (omega arith)
      five_minutes-IsOrdinary five_minutes-IsOrdinary
      (record { bearer = codes "token"; extracted = refl; parsed = refl; read = refl })
