-- ===== src/Jwt/Plain.antt =====
-- Concrete parameters for runs of `Sign` and `Verify`: a library whose only JWT holds the claims given,
-- a URL parser that knows one URL, a clock, and servers that answer without a state of their own.
use jwtproxy.Common.{
  ℕ, zero, suc, Bool, true, false, [], ◌∷◌, Option, none, some, Bytes, codes, lookup, bytes_eq,
  if◌then◌else◌,
}
use jwtproxy.Common.Int.{pos}
use jwtproxy.Common.Result.{Error, Result, ok, err, message}
use jwtproxy.Value.{Value, Claims, str, int64}
use jwtproxy.Http.{Url, UrlLib, Request, header_get}
use jwtproxy.Time.{Time, from_unix}
use jwtproxy.KeyServer.{Reader, NonceStorage}
use jwtproxy.Jwt.Library.{Jose}

abbrev string_of : Option Value → Bytes × Bool × Option Error
string_of none = ([], false, none)
string_of (some (str s)) = (s, true, none)
string_of (some _) = ([], false, some (message (codes "unable to parse claim as string")))

abbrev time_of : Option Value → Time × Bool × Option Error
time_of none = (pos 0, false, none)
time_of (some (int64 s)) = (from_unix s, true, none)
time_of (some _) = (pos 0, false, some (message (codes "unable to parse claim as float64")))

abbrev drop : ℕ → Bytes → Bytes
drop zero s = s
drop (suc n) [] = []
drop (suc n) (c ∷ s) = drop n s

abbrev bearer_of : Bytes → Result Bytes
bearer_of [] = err (message (codes "bearer token is empty"))
bearer_of (c ∷ s) = ok (c ∷ s)

-- The bearer token follows seven bytes of the header; a signature is good if it is "ok".
abbrev pub plain : Claims → Bytes → Jose
plain known sig = record {
  extract_bearer_token = λ req. bearer_of (drop 7 (header_get (codes "Authorization") req.header));
  Jwt = Claims;
  parse_jwt = λ s. ok known;
  claims = λ jwt. ok jwt;
  header = λ jwt. (codes "kid", codes "key-1") ∷ [];
  signature = λ jwt. sig;
  signed_data = λ jwt. codes "data";
  string_claim = λ c n. string_of (lookup n c);
  time_claim = λ c n. time_of (lookup n c);
  PublicKey = Unit;
  Verifier = Unit;
  public_key_id = λ k. codes "key-1";
  verifier = λ k. ok tt;
  verify_signature =
      λ v s d. if bytes_eq s (codes "ok") then none else some (message (codes "bad signature"));
  PrivateKey = Unit;
  Signer = Unit;
  private_key_id = λ k. codes "key-1";
  signer = λ k. k;
  new_signed_jwt = λ c s. ok c;
  encode = λ jwt. codes "token";
}

abbrev pub upstream : Url
upstream = record {
  scheme = codes "http";
  host = codes "a.b";
  path = codes "/";
  raw_query = [];
  rest = [];
}

abbrev pub one_url : UrlLib
one_url = record { parse = λ s. ok upstream; print = λ u. codes "http://a.b/"; fold = λ s. s }

abbrev pub request : Request
request = record { method = codes "GET"; url = upstream; header = []; body = [] }

abbrev pub bearing : Request
bearing = record request { header = (codes "Authorization", codes "Bearer token") ∷ [] }

module _ {W : Type 0} where
  abbrev pub serve_key : Reader W Unit
  serve_key = record { get_public_key = λ iss kid w. (ok tt, w) }

  abbrev pub new_to_all : NonceStorage W
  new_to_all = record { verify = λ n e w. (true, w) }
