-- ===== src/Time/Ticking.antt =====
-- A clock for the runs.
use jwtproxy.Common.{ℕ, suc, refl, arith}
use jwtproxy.Common.Int.{pos}
use jwtproxy.Time.{Clock}

-- Its state is its last reading; each reading shows one nanosecond more.
abbrev pub ticking : Clock
ticking = record {
  State = ℕ;
  read = λ n. (pos (suc n), suc n);
  last = λ n. pos n;
  read_last = λ n. refl;
  monotone = λ n. omega arith;
}
