-- ===== src/NonceStorage/Local/Tests.antt =====
-- The storage over a cache and a clock that are written out.
use jwtproxy.Common.{List, true, false, ◌≡◌, refl, [], ◌∷◌, codes, bytes_eq, arith}
use jwtproxy.Common.Int.{◌+ℤ◌}
use jwtproxy.Time.{add, sub, seconds}
use jwtproxy.NonceStorage.Local.{
  Call, World, look, store, verify, verifies, purges, run, step, purge,
}
use jwtproxy.Time.Ticking.{ticking}
use jwtproxy.NonceStorage.Local.Listed.{listed}
use jwtproxy.NonceStorage.Local.Spec.{answers, spec_answers, local_refines}
use jwtproxy.NonceStorage.Local.Replay.{replay_refused}
use jwtproxy.NonceStorage.Local.Race.{Pc, schedule, both_ready, answered, uninterrupted, race}

abbrev fresh : World ticking listed
fresh = record { cache = []; time = 0 }

replay_refused_example :
    (verify ticking listed (codes "a") (seconds 60) (
      run ticking listed
        (verify ticking listed (codes "a") (seconds 60) fresh).1
        (verifies (codes "b") (seconds 1) ∷ purges ∷ []))).0
    ≡ false
unfolding verify look store run step purge bytes_eq add sub ◌+ℤ◌
replay_refused_example =
    replay_refused ticking listed (codes "a") (seconds 60) (seconds 60) fresh
      (verifies (codes "b") (seconds 1) ∷ purges ∷ []) (omega arith) refl (omega arith)

uninterrupted_example :
    (schedule ticking listed
      (codes "a")
      (seconds 60)
      (both_ready ticking listed (codes "a") (seconds 60) fresh)
      (true ∷ true ∷ []))
    ≡ record {
      first = answered (verify ticking listed (codes "a") (seconds 60) fresh).0;
      second = Pc.ready;
      world = (verify ticking listed (codes "a") (seconds 60) fresh).1;
    }
uninterrupted_example = uninterrupted ticking listed (codes "a") (seconds 60) fresh

race_example :
    let s =
      schedule ticking listed
        (codes "a")
        (seconds 60)
        (both_ready ticking listed (codes "a") (seconds 60) fresh)
        (true ∷ false ∷ true ∷ false ∷ []) in
    (s.first ≡ answered true) × (s.second ≡ answered true)
race_example = race ticking listed (codes "a") (seconds 60) fresh refl refl

abbrev calls : List (Call ticking listed)
calls =
    verifies (codes "a") (seconds 60)
    ∷ purges
    ∷ verifies (codes "a") (seconds 60)
    ∷ verifies (codes "b") (seconds 1)
    ∷ []

local_refines_example :
    answers ticking listed calls fresh
    ≡ spec_answers ticking listed calls (record { entries = []; time = 0 })
local_refines_example = local_refines ticking listed calls fresh (λ j u. refl)

answered_once : answers ticking listed calls fresh ≡ true ∷ false ∷ true ∷ []
unfolding answers verify look store purge bytes_eq add sub ◌+ℤ◌
answered_once = refl
