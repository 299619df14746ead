-- ===== src/PrivateKey/Stopping/Alive.antt =====
-- Properties that the loop keeps as long as the process lives.
use jwtproxy.Common.{Bool, true, false, Option, none, some, Bytes, if◌then◌else◌}
use jwtproxy.Common.Result.{Error}
use jwtproxy.KeyServer.PublishResult.{
  PublishResult, Outcome, panicked, blocked, done, new_publish_result, set_result, cancel, receive,
}
use jwtproxy.PrivateKey.Rotation
use jwtproxy.PrivateKey.Rotation.{
  Generated, no_key, no_thumbprint, makes, Loop, Progress, stops, rotates, receives, answers,
  logger_panics, attempt_publish, advance, swap, push_key, success_panics,
}
use jwtproxy.PrivateKey.Rotation.Progress.{runs, ended, fatal, crashed}
use jwtproxy.PrivateKey.Stopping.{Pc, not_called, closed, returned, loop_case}

-- A property of the loop's state, as long as the process lives
abbrev pub Alive : {K : Type 0} → (Loop K → Type 0) → Progress K → Type 0
Alive P (runs s) = P s
Alive P (ended s) = P s
Alive P (fatal e) = Unit
Alive P crashed = Unit

-- A property that the loop's assignments keep is kept by the loop.
module _ {K : Type 0} (key_id : K → Bytes) (P : Loop K → Type 0)
    (kept : (s : Loop K) (pr : PublishResult) (b : Bool)
      → P s
      → P (record s { publication_result = pr; in_flight = b }))
    (makes_key : (s : Loop K) (k : K)
      → P s
      → P (record s {
        keys = record s.keys { pending = some k };
        publication_result = new_publish_result;
        in_flight = true;
        revoked = push_key s.keys.pending s.revoked;
      }))
    (swaps : (s : Loop K) → P s → P (swap key_id s)) where
  outcome-Alive :
      (o : Outcome) (p : PublishResult → Progress K)
      → ((pr : PublishResult) → Alive P (p pr))
      → Alive P (elim o [ panicked ↦ crashed | blocked ↦ crashed | done pr ↦ p pr ])
  outcome-Alive panicked p h = tt
  outcome-Alive blocked p h = tt
  outcome-Alive (done pr) p h = h pr

  either-Alive :
      (b : Bool) (p q : Progress K) → Alive P p → Alive P q → Alive P (if b then p else q)
  either-Alive true p q h h' = h
  either-Alive false p q h h' = h'

  attempt-Alive : (s : Loop K) (g : Generated K) → P s → Alive P (attempt_publish key_id g s)
  unfolding attempt_publish set_result
  attempt-Alive s no_key h = tt
  attempt-Alive s (no_thumbprint e) h = kept s _ false h
  attempt-Alive s (makes j) h = makes_key s j h

  received-Alive :
      (s : Loop K) (o : Option (Option Error))
      → P s
      → Alive P (elim o [
        | none ↦ runs s
        | some (some e) ↦ if logger_panics key_id s.keys then crashed else fatal e
        | some none ↦ if success_panics key_id s then crashed else runs (swap key_id s)
      ])
  received-Alive s none h = h
  received-Alive s (some (some e)) h =
      either-Alive (logger_panics key_id s.keys) crashed (fatal e) tt tt
  received-Alive s (some none) h =
      either-Alive (success_panics key_id s) crashed (runs (swap key_id s)) tt (swaps s h)

  step-Alive : (s : Loop K) (e : Rotation.Event K) → P s → Alive P (Rotation.step key_id s e)
  unfolding Rotation.step
  step-Alive s stops h = either-Alive (logger_panics key_id s.keys) crashed _ tt (
      outcome-Alive (cancel s.publication_result)
        (λ pr. ended (record s { publication_result = pr })) (λ pr. kept s pr s.in_flight h))
  step-Alive s (rotates g) h = either-Alive (logger_panics key_id s.keys) crashed _ tt (
      outcome-Alive (cancel s.publication_result) (λ pr. attempt_publish key_id g s)
        (λ pr. attempt-Alive s g h))
  step-Alive s receives h = received-Alive s (receive s.publication_result).0 h
  step-Alive s (answers v) h =
      either-Alive s.in_flight _ (runs s)
        (outcome-Alive (set_result v s.publication_result)
          (λ pr. runs (record s { publication_result = pr; in_flight = false }))
          (λ pr. kept s pr false h))
        h

  advance-Alive : (p : Progress K) (e : Rotation.Event K) → Alive P p → Alive P (advance key_id p e)
  advance-Alive (runs s) e h = step-Alive s e h
  advance-Alive (ended s) e h = h
  advance-Alive (fatal x) e h = h
  advance-Alive crashed e h = h

  pub loop_case-Alive :
      (p : Progress K) (pc : Pc) (e : Rotation.Event K)
      → Alive P p
      → Alive P (loop_case key_id p pc e)
  unfolding loop_case
  loop_case-Alive p not_called stops h = h
  loop_case-Alive p not_called (rotates g) h = advance-Alive p (rotates g) h
  loop_case-Alive p not_called receives h = advance-Alive p receives h
  loop_case-Alive p not_called (answers v) h = advance-Alive p (answers v) h
  loop_case-Alive p closed e h = advance-Alive p e h
  loop_case-Alive p returned e h = advance-Alive p e h
