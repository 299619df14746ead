-- ===== src/KeyRegistry/Stopping/Finish.antt =====
-- `Stop` of the client comes to its end, whatever the registry answers.
use jwtproxy.Common.{ℕ, ◌≤◌, ◌<◌, ◌≡◌, Bool, true, some, List, [], ◌∷◌, ◌++◌, length, arith}
use jwtproxy.KeyRegistry.Stopping.{
  Flight, requests, polls, done, finished, Life, Event, in_flight, is_stopping, run,
}
use native.Mathlib.Decide.{dec_lt}
use jwtproxy.KeyRegistry.Stopping.Quiet.{
  AllQuiet, answers_to, selects, is_run, closes_cache, occurs, nth, rank, nth-length, all_done,
}
use jwtproxy.KeyRegistry.Stopping.Moves.{
  moves, run-moves, moves-append, stays, comes, At, At-kept, answered, selected,
}
use jwtproxy.KeyRegistry.Stopping.Turns.{
  AllDone, IsPast, IsClosed, IsOver, AllDone-kept, IsPast-kept, passes, IsClosed-kept, cache_closes,
  IsOver-kept, last_run,
}

AllQuiet-append : (xs ys : List Event) → AllQuiet xs → AllQuiet ys → AllQuiet (xs ++ ys)
AllQuiet-append [] ys a b = b
AllQuiet-append (x ∷ xs) ys (q, a) b = (q, AllQuiet-append xs ys a b)

at_most_two : (x : Flight) → rank x ≤ 2
at_most_two requests = omega arith
at_most_two polls = omega arith
at_most_two done = omega arith

module _ (has_cache : Bool) where
  -- Each goroutine is answered, and then has a turn of its `select`.
  flights_end :
      (s : Life) (first second : List Event)
      → is_stopping s.pc ≡ true
      → AllQuiet first
      → AllQuiet second
      → ((i : ℕ) → i < length s.flights → occurs (answers_to i) first ≡ true)
      → ((i : ℕ) → i < length s.flights → occurs (selects i) second ≡ true)
      → AllDone (moves has_cache (moves has_cache s first) second)
  flights_end s first second h qa qb a b i = elim (dec_lt i (length s.flights)) [
    | no ge ↦ stays has_cache (At 0 i) (At-kept has_cache 0 i) (moves has_cache s first) second qb (
        stays has_cache (At 0 i) (At-kept has_cache 0 i) s first qa
          (h, nth-length i s.flights (omega (arith, ge))))
    | yes lt ↦
        comes has_cache (At 1 i) (At 0 i) (selects i) (At-kept has_cache 1 i)
          (At-kept has_cache 0 i) (selected has_cache i) (moves has_cache s first) second qb
          (b i lt)
          (comes has_cache (At 2 i) (At 1 i) (answers_to i) (At-kept has_cache 2 i)
            (At-kept has_cache 1 i) (answered has_cache i) s first qa (a i lt)
            (h, at_most_two (nth i s.flights)))
  ]

  -- Once the client's `Stop` has been called, and however far it and the goroutines of the
  -- publications are, if nothing is published and `Stop` is not called again: the events come in five
  -- stretches, each in any order and with any other events among them. In the first, the PUT of each
  -- goroutine is answered; in the second, each has a turn of its `select`; in the third, the goroutine
  -- of `Stop` has a turn; in the fourth, the cache closes its channel; in the fifth, the goroutine of
  -- `Stop` has a turn again. Then nothing has panicked, the client's channel is closed and no
  -- goroutine is left.
  pub stop_finishes :
      (s : Life) (first second third fourth fifth : List Event)
      → is_stopping s.pc ≡ true
      → AllQuiet first × AllQuiet second × AllQuiet third × AllQuiet fourth × AllQuiet fifth
      → ((i : ℕ) → i < length s.flights → occurs (answers_to i) first ≡ true)
      → ((i : ℕ) → i < length s.flights → occurs (selects i) second ≡ true)
      → occurs is_run third ≡ true
      → occurs closes_cache fourth ≡ true
      → occurs is_run fifth ≡ true
      → (last : Life) × (run has_cache s (first ++ second ++ third ++ fourth ++ fifth) ≡ some last)
        × (last.pc ≡ finished)
        × (in_flight last.flights ≡ 0)
  stop_finishes s first second third fourth fifth h (qa, qb, qc, qd, qe) a b c d e =
      let done_ = flights_end s first second h qa qb a b in
      let t = moves has_cache (moves has_cache s first) second in
      let past =
        comes has_cache AllDone IsPast is_run (AllDone-kept has_cache) (IsPast-kept has_cache)
          (passes has_cache) t third qc c done_ in
      let closed =
        comes has_cache IsPast IsClosed closes_cache (IsPast-kept has_cache)
          (IsClosed-kept has_cache) (cache_closes has_cache) (moves has_cache t third) fourth qd d
          past in
      let over =
        comes has_cache IsClosed IsOver is_run (IsClosed-kept has_cache) (IsOver-kept has_cache)
          (last_run has_cache) (moves has_cache (moves has_cache t third) fourth) fifth qe e
          closed in
      let reached = run-moves has_cache s (first ++ second ++ third ++ fourth ++ fifth) (
        AllQuiet-append _ fifth
          (AllQuiet-append _ fourth
            (AllQuiet-append _ third (AllQuiet-append first second qa qb) qc) qd)
          qe) in
      (
        moves has_cache (moves has_cache (moves has_cache t third) fourth) fifth,
        rw
            (
              moves-append has_cache s (first ++ second ++ third ++ fourth) fifth,
              moves-append has_cache s (first ++ second ++ third) fourth,
              moves-append has_cache s (first ++ second) third,
              moves-append has_cache s first second,
            )
            at reached,
        over.0,
        all_done _ (λ i. (over.1 i).1),
      )
