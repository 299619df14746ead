-- ===== src/Proxy/Through/Tests.antt =====
-- The request of Jwt/Sign's tests on its way, with a claims verifier that passes all.
use jwtproxy.Common.{ℕ, ◌≡◌, refl, none, some, [], ◌∷◌, codes, lookup, bytes_eq, arith}
use jwtproxy.Common.Int.{◌+ℤ◌}
use jwtproxy.Common.Result.{Result, ok}
use jwtproxy.Time.{minutes}
use jwtproxy.Time.Ticking.{ticking}
use jwtproxy.Nonce.{generate_nonce}
use jwtproxy.Jwt.Plain.{upstream, one_url, request, serve_key, new_to_all}
use jwtproxy.Jwt.Sign.{Entropy, add_token}
use jwtproxy.Jwt.Sign.Tests.{
  params, counting, t0, entropy, signed, jose, read_back, later, five_minutes-IsOrdinary,
}
use jwtproxy.Proxy.Router.{default_round_tripper, route}
use jwtproxy.Proxy.Signer.{signer_handler}
use jwtproxy.Proxy.Verifier.{Handle, verifier_handler}
use jwtproxy.Proxy.Through.{signed_forwarded}

abbrev get_key : ℕ → Result (Unit {0}) × ℕ
get_key n = (ok tt, n)

abbrev pass : Handle ℕ
pass r c w = (none, w)

signed_forwarded_example :
    (w : Entropy ticking ℕ) × (signer_handler jose ticking counting get_key params request
        (5, entropy)
      ≡ some ((add_token jose request signed, none), (5, w)))
    × ((verifier_handler one_url jose later serve_key new_to_all
          (pass ∷ [])
          upstream
          upstream
          (minutes 5)
          (minutes 5)
          (add_token jose request signed, default_round_tripper)
          t0).0
        ≡ record {
          request =
              (route one_url upstream (add_token jose request signed, default_round_tripper)).0;
          round_tripper =
              (route one_url upstream (add_token jose request signed, default_round_tripper)).1;
          response = none;
        })
unfolding lookup bytes_eq generate_nonce ◌+ℤ◌ read_back
signed_forwarded_example =
    signed_forwarded jose ticking counting get_key one_url later serve_key new_to_all (pass ∷ [])
      upstream request default_round_tripper 5 tt params entropy (codes "adh") 398 signed upstream
      (minutes 5) (minutes 5) t0 tt refl refl refl refl (read_back signed) five_minutes-IsOrdinary
      five_minutes-IsOrdinary
      (record {
        first = omega arith;
        second = omega arith;
        sign_skew = omega arith;
        verify_skew = omega arith;
        alive = omega arith;
        short = omega arith;
      })
      (upstream, refl, refl) refl refl (record { verifier = tt; made = refl; valid = refl })
      (refl, tt)
