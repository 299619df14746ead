-- ===== src/PrivateKey/Published.antt =====
-- A key that signs has been published.
use mathlib.Core.Path.{subst}
use jwtproxy.Common.{
  ◌≡◌, ◌⊎◌, refl, sym, inl, inr, Bool, true, false, Option, none, some, List, [], ◌∷◌, Bytes, arith,
  if◌then◌else◌,
}
use jwtproxy.Common.Result.{Error, ok}
use jwtproxy.KeyServer.PublishResult.{
  PublishResult, Outcome, done, blocked, panicked, set_result, cancel, receive,
}
use jwtproxy.PrivateKey.{get_private_key, Stored, uses, generates, ends_process}
use jwtproxy.PrivateKey.Provider.{start, start_with}
use jwtproxy.PrivateKey.Rotation.{
  Generated, no_key, no_thumbprint, makes, Loop, Progress, Event, stops, rotates, receives, answers,
  logger_panics, attempt_publish, advance, step, run, swap, success_panics,
}
use jwtproxy.PrivateKey.Rotation.Progress.{runs, ended, fatal, crashed}

-- The publisher reports success for the pending key, and this is it.
pub IsAnswered : {K : Type 0} → K → Progress K → Event K → Type 0
IsAnswered k (runs s) (answers none) = (s.in_flight ≡ true) × (s.keys.pending ≡ some k)
IsAnswered k (runs s) (answers (some e)) = ⊥
IsAnswered k (runs s) stops = ⊥
IsAnswered k (runs s) (rotates g) = ⊥
IsAnswered k (runs s) receives = ⊥
IsAnswered k (ended s) e = ⊥
IsAnswered k (fatal x) e = ⊥
IsAnswered k crashed e = ⊥

pub IsAnswered-cases :
    {K : Type 0} (k : K) (p : Progress K) (e : Event K)
    → IsAnswered k p e
    → (s : Loop K) × (p ≡ runs s) × (e ≡ answers none) × (s.keys.pending ≡ some k)
unfolding IsAnswered
IsAnswered-cases k (runs s) (answers none) (flight, pending) = (s, refl, refl, pending)
IsAnswered-cases k (runs s) (answers (some e)) h = elim h [ ]
IsAnswered-cases k (runs s) stops h = elim h [ ]
IsAnswered-cases k (runs s) (rotates g) h = elim h [ ]
IsAnswered-cases k (runs s) receives h = elim h [ ]
IsAnswered-cases k (ended s) e h = elim h [ ]
IsAnswered-cases k (fatal x) e h = elim h [ ]
IsAnswered-cases k crashed e h = elim h [ ]

-- The key is active, or becomes so with the next receive.
abbrev Holds : {K : Type 0} → K → Progress K → Type 0
Holds k (runs s) =
    (s.keys.active ≡ some k)
    ⊎ ((receive s.publication_result).0 ≡ some none) × (s.keys.pending ≡ some k)
Holds k (ended s) = ⊥
Holds k (fatal x) = ⊥
Holds k crashed = ⊥

receive-set_result :
    (v : Option Error) (pr pr' : PublishResult)
    → set_result v pr ≡ done pr'
    → (receive pr').0 ≡ some v
unfolding set_result receive
receive-set_result v pr pr' h = ground arith

module _ {K : Type 0} (key_id : K → Bytes) where
  -- Along a run the publisher reported success while this key was the pending one.
  unfoldable pub IsPublished : K → Progress K → List (Event K) → Type 0
  IsPublished k p [] = ⊥
  IsPublished k p (e ∷ es) = IsAnswered k p e ⊎ IsPublished k (advance key_id p e) es

  attempt-Holds :
      (k : K) (g : Generated K) (s : Loop K)
      → Holds k (attempt_publish key_id g s)
      → Holds k (runs s)
  unfolding attempt_publish set_result receive
  attempt-Holds k no_key s h = elim h [ ]
  attempt-Holds k (no_thumbprint e) s (inl same) = inl same
  attempt-Holds k (no_thumbprint e) s (inr (got, p)) = cc
  attempt-Holds k (makes c) s (inl same) = inl same
  attempt-Holds k (makes c) s (inr (got, p)) = cc

  guarded-Holds :
      (k : K) (b : Bool) (p : Progress K) → Holds k (if b then crashed else p) → Holds k p
  guarded-Holds k true p h = elim h [ ]
  guarded-Holds k false p h = h

  outcome-Holds :
      (k : K) (o : Outcome) (p : PublishResult → Progress K)
      → Holds k (elim o [ panicked ↦ crashed | blocked ↦ crashed | done pr ↦ p pr ])
      → (pr : PublishResult) × (o ≡ done pr) × Holds k (p pr)
  outcome-Holds k panicked p h = elim h [ ]
  outcome-Holds k blocked p h = elim h [ ]
  outcome-Holds k (done pr) p h = (pr, refl, h)

  received-Holds :
      (k : K) (s : Loop K) (o : Option (Option Error))
      → (receive s.publication_result).0 ≡ o
      → Holds k (elim o [
        | none ↦ runs s
        | some (some e) ↦ if logger_panics key_id s.keys then crashed else fatal e
        | some none ↦ if success_panics key_id s then crashed else runs (swap key_id s)
      ])
      → Holds k (runs s)
  unfolding receive
  received-Holds k s none at h = h
  received-Holds k s (some (some e)) at h =
      elim (guarded-Holds k (logger_panics key_id s.keys) (fatal e) h) [ ]
  received-Holds k s (some none) at h =
      elim (guarded-Holds k (success_panics key_id s) (runs (swap key_id s)) h) [
        | inl pending ↦ inr (at, pending)
        | inr (got, none_) ↦ cc
      ]

  IsAnswered-Holds :
      (k : K) (s : Loop K) (v : Option Error) (b : Bool)
      → s.in_flight ≡ b
      → Holds k (
          if b
          then elim (set_result v s.publication_result) [
            | panicked ↦ crashed
            | blocked ↦ crashed
            | done pr ↦ runs (record s { publication_result = pr; in_flight = false })
          ]
          else runs s)
      → Holds k (runs s) ⊎ IsAnswered k (runs s) (answers v)
  unfolding IsAnswered
  IsAnswered-Holds k s v false flies h = inl h
  IsAnswered-Holds k s v true flies h =
      let (pr, set, holds) =
        outcome-Holds k (set_result v s.publication_result)
          (λ pr. runs (record s { publication_result = pr; in_flight = false })) h in
      go v pr (receive-set_result v s.publication_result pr set) holds
    where
      go :
          (v : Option Error) (pr : PublishResult)
          → (receive pr).0 ≡ some v
          → (s.keys.active ≡ some k) ⊎ ((receive pr).0 ≡ some none) × (s.keys.pending ≡ some k)
          → Holds k (runs s) ⊎ IsAnswered k (runs s) (answers v)
      go v pr sent (inl active) = inl (inl active)
      go none pr sent (inr (got, pending)) = inr (flies, pending)
      go (some e) pr sent (inr (got, pending)) = cc

  step-Holds :
      (k : K) (s : Loop K) (e : Event K)
      → Holds k (step key_id s e)
      → Holds k (runs s) ⊎ IsAnswered k (runs s) e
  unfolding step IsAnswered
  step-Holds k s stops h =
      let (pr, canceled, holds) =
        outcome-Holds k (cancel s.publication_result)
          (λ pr. ended (record s { publication_result = pr }))
          (guarded-Holds k (logger_panics key_id s.keys) _ h) in
      elim holds [ ]
  step-Holds k s (rotates g) h =
      let (pr, canceled, holds) =
        outcome-Holds k (cancel s.publication_result) (λ pr. attempt_publish key_id g s)
          (guarded-Holds k (logger_panics key_id s.keys) _ h) in
      inl (attempt-Holds k g s holds)
  step-Holds k s receives h = inl (received-Holds k s (receive s.publication_result).0 refl h)
  step-Holds k s (answers v) h = IsAnswered-Holds k s v s.in_flight refl h

  advance-Holds :
      (k : K) (p : Progress K) (e : Event K)
      → Holds k (advance key_id p e)
      → Holds k p ⊎ IsAnswered k p e
  advance-Holds k (runs s) e h = step-Holds k s e h
  advance-Holds k (ended s) e h = elim h [ ]
  advance-Holds k (fatal x) e h = elim h [ ]
  advance-Holds k crashed e h = elim h [ ]

  run-Holds :
      (k : K) (p : Progress K) (es : List (Event K))
      → Holds k (run key_id p es)
      → Holds k p ⊎ IsPublished k p es
  unfolding run IsPublished
  run-Holds k p [] h = inl h
  run-Holds k p (e ∷ es) h = elim (run-Holds k (advance key_id p e) es h) [
    | inr later ↦ inr (inr later)
    | inl holds ↦ elim (advance-Holds k p e holds) [
      | inl before ↦ inl before
      | inr now ↦ inr (inl now)
    ]
  ]

  start-Holds :
      (k : K) (stored : Stored K) (g : Generated K)
      → Holds k (start key_id stored g)
      → stored ≡ uses k
  unfolding start receive
  start-Holds k (uses j) g (inl e) = ground arith
  start-Holds k (uses j) g (inr (got, e)) = cc
  start-Holds k generates g h = elim (attempt-Holds k g (start_with key_id none) h) [
    | inl e ↦ cc
    | inr (got, e) ↦ cc
  ]
  start-Holds k (ends_process x) g h = elim h [ ]

  -- The key that `GetPrivateKey` gives out is the stored one that the constructor uses, or the publisher
  -- has reported, while that key was the pending one, that it is published, whatever the order of
  -- rotations, answers, receives and stops.
  pub active-IsPublished :
      (stored : Stored K) (g : Generated K) (es : List (Event K)) (s : Loop K) (k : K)
      → run key_id (start key_id stored g) es ≡ runs s
      → get_private_key s.keys ≡ ok k
      → (stored ≡ uses k) ⊎ IsPublished k (start key_id stored g) es
  unfolding start get_private_key receive
  active-IsPublished stored g es s k ran got =
      let active : s.keys.active ≡ some k = ground arith in
      let holds : Holds k (run key_id (start key_id stored g) es) =
        subst (Holds k) (sym ran) (inl active) in
      elim (run-Holds k (start key_id stored g) es holds) [
        | inr published ↦ inr published
        | inl at_start ↦ inl (start-Holds k stored g at_start)
      ]
