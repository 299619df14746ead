-- ===== src/PrivateKey/Origin.antt =====
-- Where the keys of the loop come from.
use jwtproxy.Common.{
  ◌≡◌, ◌⊎◌, inl, inr, Bool, true, false, Option, none, some, List, [], ◌∷◌, Bytes, arith,
  if◌then◌else◌,
}
use jwtproxy.Common.Result.{Error}
use jwtproxy.KeyServer.PublishResult.{
  PublishResult, Outcome, panicked, blocked, done, set_result, cancel, receive,
}
use jwtproxy.PrivateKey.Rotation.{
  Generated, no_key, no_thumbprint, makes, Loop, Progress, Event, stops, rotates, receives, answers,
  logger_panics, attempt_publish, advance, step, run, swap, success_panics,
}
use jwtproxy.PrivateKey.Rotation.Progress.{runs, ended, fatal, crashed}

-- A rotation among these events makes the key.
abbrev pub IsMade : {K : Type 0} → K → List (Event K) → Type 0
IsMade k [] = ⊥
IsMade k (rotates (makes j) ∷ es) = (j ≡ k) ⊎ IsMade k es
IsMade k (rotates no_key ∷ es) = IsMade k es
IsMade k (rotates (no_thumbprint e) ∷ es) = IsMade k es
IsMade k (stops ∷ es) = IsMade k es
IsMade k (receives ∷ es) = IsMade k es
IsMade k (answers v ∷ es) = IsMade k es

-- The key is the active or the pending one of the loop.
abbrev pub Has : {K : Type 0} → K → Progress K → Type 0
Has k (runs s) = (s.keys.active ≡ some k) ⊎ (s.keys.pending ≡ some k)
Has k (ended s) = ⊥
Has k (fatal e) = ⊥
Has k crashed = ⊥

guarded-Has :
    {K : Type 0} (k : K) (b : Bool) (p : Progress K) → Has k (if b then crashed else p) → Has k p
guarded-Has k true p h = elim h [ ]
guarded-Has k false p h = h

outcome-Has :
    {K : Type 0} (k : K) (o : Outcome) (p : PublishResult → Progress K)
    → Has k (elim o [ panicked ↦ crashed | blocked ↦ crashed | done pr ↦ p pr ])
    → (pr : PublishResult) × Has k (p pr)
outcome-Has k panicked p h = elim h [ ]
outcome-Has k blocked p h = elim h [ ]
outcome-Has k (done pr) p h = (pr, h)

module _ {K : Type 0} (key_id : K → Bytes) where
  received-Has :
      (k : K) (s : Loop K) (o : Option (Option Error))
      → Has k (elim o [
        | none ↦ runs s
        | some (some e) ↦ if logger_panics key_id s.keys then crashed else fatal e
        | some none ↦ if success_panics key_id s then crashed else runs (swap key_id s)
      ])
      → Has k (runs s)
  received-Has k s none h = h
  received-Has k s (some (some e)) h =
      elim (guarded-Has k (logger_panics key_id s.keys) (fatal e) h) [ ]
  received-Has k s (some none) h =
      elim (guarded-Has k (success_panics key_id s) (runs (swap key_id s)) h) [
        | inl pending ↦ inr pending
        | inr none_left ↦ cc
      ]

  answered-Has :
      (k : K) (s : Loop K) (v : Option Error) (b : Bool)
      → Has k (
          if b
          then elim (set_result v s.publication_result) [
            | panicked ↦ crashed
            | blocked ↦ crashed
            | done pr ↦ runs (record s { publication_result = pr; in_flight = false })
          ]
          else runs s)
      → Has k (runs s)
  answered-Has k s v false h = h
  answered-Has k s v true h =
      (outcome-Has k (set_result v s.publication_result)
        (λ pr. runs (record s { publication_result = pr; in_flight = false })) h).1

  attempt-Has :
      (k : K) (s : Loop K) (g : Generated K)
      → Has k (attempt_publish key_id g s)
      → Has k (runs s) ⊎ IsMade k (rotates g ∷ [])
  unfolding attempt_publish set_result
  attempt-Has k s no_key h = elim h [ ]
  attempt-Has k s (no_thumbprint e) h = inl h
  attempt-Has k s (makes c) (inl active) = inl (inl active)
  attempt-Has k s (makes c) (inr pending) = inr (inl (ground arith))

  step-Has :
      (k : K) (s : Loop K) (e : Event K)
      → Has k (step key_id s e)
      → Has k (runs s) ⊎ IsMade k (e ∷ [])
  unfolding step
  step-Has k s stops h =
      elim (outcome-Has k (cancel s.publication_result)
        (λ pr. ended (record s { publication_result = pr }))
        (guarded-Has k (logger_panics key_id s.keys) _ h)).1 [ ]
  step-Has k s (rotates g) h =
      attempt-Has k s g
        (outcome-Has k (cancel s.publication_result) (λ pr. attempt_publish key_id g s)
          (guarded-Has k (logger_panics key_id s.keys) _ h)).1
  step-Has k s receives h = inl (received-Has k s (receive s.publication_result).0 h)
  step-Has k s (answers v) h = inl (answered-Has k s v s.in_flight h)

  advance-Has :
      (k : K) (p : Progress K) (e : Event K)
      → Has k (advance key_id p e)
      → Has k p ⊎ IsMade k (e ∷ [])
  advance-Has k (runs s) e h = step-Has k s e h
  advance-Has k (ended s) e h = elim h [ ]
  advance-Has k (fatal x) e h = elim h [ ]
  advance-Has k crashed e h = elim h [ ]

  IsMade-first : (k : K) (e : Event K) (es : List (Event K)) → IsMade k (e ∷ []) → IsMade k (e ∷ es)
  IsMade-first k (rotates (makes j)) es (inl same) = inl same
  IsMade-first k (rotates (makes j)) es (inr h) = elim h [ ]
  IsMade-first k (rotates no_key) es h = elim h [ ]
  IsMade-first k (rotates (no_thumbprint e)) es h = elim h [ ]
  IsMade-first k stops es h = elim h [ ]
  IsMade-first k receives es h = elim h [ ]
  IsMade-first k (answers v) es h = elim h [ ]

  IsMade-later : (k : K) (e : Event K) (es : List (Event K)) → IsMade k es → IsMade k (e ∷ es)
  IsMade-later k (rotates (makes j)) es h = inr h
  IsMade-later k (rotates no_key) es h = h
  IsMade-later k (rotates (no_thumbprint e)) es h = h
  IsMade-later k stops es h = h
  IsMade-later k receives es h = h
  IsMade-later k (answers v) es h = h

  -- A key that the loop has at the end it had at the start, or it made it.
  pub run-Has :
      (k : K) (p : Progress K) (es : List (Event K))
      → Has k (run key_id p es)
      → Has k p ⊎ IsMade k es
  unfolding run
  run-Has k p [] h = inl h
  run-Has k p (e ∷ es) h = elim (run-Has k (advance key_id p e) es h) [
    | inr later ↦ inr (IsMade-later k e es later)
    | inl now ↦ elim (advance-Has k p e now) [
      | inl before ↦ inl before
      | inr made ↦ inr (IsMade-first k e es made)
    ]
  ]
