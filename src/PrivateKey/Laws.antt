-- ===== src/PrivateKey/Laws.antt =====
-- The rotation never panics by itself, and a signer that has a key keeps one.
use mathlib.Core.Path.{sym, subst}
use jwtproxy.Common.{
  ◌≡◌, ◌≢◌, ◌⊎◌, refl, inl, inr, Option-cases, Bool, true, false, Option, none, some, List, [], ◌∷◌,
  Bytes, All, arith,
}
use jwtproxy.Common.Result.{Error, ok}
use jwtproxy.KeyRegistry.Publish.{is_short}
use jwtproxy.KeyServer.PublishResult.{
  PublishResult, done, new_publish_result, set_result, cancel, receive,
}
use jwtproxy.PrivateKey.{Autogenerated, get_private_key}
use jwtproxy.PrivateKey.Origin.{Has, IsMade, run-Has}
use jwtproxy.PrivateKey.Rotation.{
  Generated, no_key, no_thumbprint, makes, Loop, Progress, Event, stops, rotates, receives, answers,
  logger_panics, attempt_publish, step, run, success_panics,
}
use jwtproxy.PrivateKey.Rotation.Progress.{runs, ended, fatal, crashed}

-- a result that was set
abbrev set_to : Option Error → PublishResult
set_to v = record { error_or_nil = some v; closed = true; canceled = false }

receive_new : (pr : PublishResult) → pr ≡ new_publish_result → (receive pr).0 ≡ none
unfolding receive
receive_new pr e = rw e refl

receive_set : (v : Option Error) (pr : PublishResult) → pr ≡ set_to v → (receive pr).0 ≡ some v
unfolding receive
receive_set v pr e = rw e refl

set_new :
    (v : Option Error) (pr : PublishResult)
    → pr ≡ new_publish_result
    → set_result v pr ≡ done (set_to v)
unfolding set_result
set_new v pr e = subst (λ r. set_result v r ≡ done (set_to v)) (sym e) refl

module _ {K : Type 0} where
  -- Where a publication can be: none is going on; one is, of the pending key; it failed; it succeeded,
  -- of the pending key.
  pub data Phase (s : Loop K) : Type 0 where
    idle : s.publication_result ≡ new_publish_result → s.in_flight ≡ false → Phase s
    waiting :
        (k : K)
        → s.publication_result ≡ new_publish_result
        → s.in_flight ≡ true
        → s.keys.pending ≡ some k
        → Phase s
    failed : (e : Error) → s.publication_result ≡ set_to (some e) → s.in_flight ≡ false → Phase s
    succeeded :
        (k : K)
        → s.publication_result ≡ set_to none
        → s.in_flight ≡ false
        → s.keys.pending ≡ some k
        → Phase s

  -- key generation gives a key, or fails at the thumbprint
  abbrev pub Generates : Event K → Type 0
  Generates (rotates no_key) = ⊥
  Generates (rotates (no_thumbprint e)) = Unit
  Generates (rotates (makes k)) = Unit
  Generates stops = Unit
  Generates receives = Unit
  Generates (answers v) = Unit

  -- the loop has a key, if b says that it had one
  abbrev pub HasKey : Bool → Loop K → Type 0
  HasKey b s = b ≡ true → (k : K) × (s.keys.active ≡ some k)

  -- In the loop there is a phase and the active key; the loop may have ended but not crashed.
  abbrev pub IsFit : Bool → Progress K → Type 0
  IsFit b (runs s) = Phase s × HasKey b s
  IsFit b (ended s) = Unit
  IsFit b (fatal e) = Unit
  IsFit b crashed = ⊥

  module _ (key_id : K → Bytes) (long : (k : K) → is_short (key_id k) ≡ false) where
    logger_works : (ag : Autogenerated K) → logger_panics key_id ag ≡ false
    unfolding logger_panics
    logger_works ag = elim (Option-cases ag.active) [
      | inl e ↦ elim (Option-cases ag.pending) [
        | inl f ↦ rw (e, f, logger_panics) refl
        | inr (k, f) ↦ rw (e, f, logger_panics) (long k)
      ]
      | inr (j, e) ↦ elim (Option-cases ag.pending) [
        | inl f ↦ rw (e, f, logger_panics, long j) refl
        | inr (k, f) ↦ rw (e, f, logger_panics, long j) (long k)
      ]
    ]

    success_works : (s : Loop K) (k : K) → s.keys.pending ≡ some k → success_panics key_id s ≡ false
    unfolding success_panics
    success_works s k e =
        rw (e, success_panics) (logger_works (record { active = s.keys.pending; pending = none }))

    phase_cancel :
        (s : Loop K)
        → Phase s
        → cancel s.publication_result ≡ done (record s.publication_result { canceled = true })
    unfolding cancel
    phase_cancel s (idle e f) = rw (e, cancel) refl
    phase_cancel s (waiting k e f g) = rw (e, cancel) refl
    phase_cancel s (failed x e f) = rw (e, cancel) refl
    phase_cancel s (succeeded k e f g) = rw (e, cancel) refl

    pub attempt_publish-IsFit :
        (b : Bool) (s : Loop K) (g : Generated K)
        → Generates (rotates g)
        → HasKey b s
        → IsFit b (attempt_publish key_id g s)
    unfolding attempt_publish set_result
    attempt_publish-IsFit b s no_key h key = elim h [ ]
    attempt_publish-IsFit b s (no_thumbprint e) h key = (failed e refl refl, key)
    attempt_publish-IsFit b s (makes k) h key = (waiting k refl refl refl, key)

    answers_ignored :
        (s : Loop K) (v : Option Error) → s.in_flight ≡ false → step key_id s (answers v) ≡ runs s
    unfolding step
    answers_ignored s v e = ground arith

    step-IsFit :
        (b : Bool) (s : Loop K) (e : Event K)
        → Generates e
        → IsFit b (runs s)
        → IsFit b (step key_id s e)
    unfolding step
    step-IsFit b s stops g (p, key) = rw (logger_works s.keys, phase_cancel s p, step) tt
    step-IsFit b s (rotates made) g (p, key) =
        rw (logger_works s.keys, phase_cancel s p, step) (attempt_publish-IsFit b s made g key)
    step-IsFit b s receives g (idle e f, key) =
        rw (receive_new s.publication_result e, step) (idle e f, key)
    step-IsFit b s receives g (waiting k e f h, key) =
        rw (receive_new s.publication_result e, step) (waiting k e f h, key)
    step-IsFit b s receives g (failed x e f, key) =
        rw (receive_set (some x) s.publication_result e, step, logger_works s.keys) tt
    step-IsFit b s receives g (succeeded k e f h, key) =
        rw (receive_set none s.publication_result e, step, success_works s k h)
          (idle refl refl, λ had. (k, h))
    step-IsFit b s (answers v) g (idle e f, key) = rw (answers_ignored s v f) (idle e f, key)
    step-IsFit b s (answers none) g (waiting k e f h, key) =
        rw (set_new none s.publication_result e, f, step) (succeeded k refl refl h, key)
    step-IsFit b s (answers (some x)) g (waiting k e f h, key) =
        rw (set_new (some x) s.publication_result e, f, step) (failed x refl refl, key)
    step-IsFit b s (answers v) g (failed x e f, key) =
        rw (answers_ignored s v f) (failed x e f, key)
    step-IsFit b s (answers v) g (succeeded k e f h, key) =
        rw (answers_ignored s v f) (succeeded k e f h, key)

    pub run-IsFit :
        (b : Bool) (p : Progress K) (es : List (Event K))
        → All Generates es
        → IsFit b p
        → IsFit b (run key_id p es)
    unfolding run
    run-IsFit b p [] g fit = fit
    run-IsFit b (runs s) (e ∷ es) g fit =
        run-IsFit b (step key_id s e) es g.1 (step-IsFit b s e g.0 fit)
    run-IsFit b crashed (e ∷ es) g fit = elim fit [ ]
    run-IsFit b (ended s) (e ∷ es) g fit = run-IsFit b (ended s) es g.1 fit
    run-IsFit b (fatal x) (e ∷ es) g fit = run-IsFit b (fatal x) es g.1 fit

    -- If key ids are not short and key generation gives a key or an error of the thumbprint, the rotation
    -- never panics from any phase, in any order of stops, rotations, answers and receives: no
    -- result is canceled or set twice.
    run_never_crashes :
        (s : Loop K) (es : List (Event K))
        → Phase s
        → All Generates es
        → run key_id (runs s) es ≢ crashed
    run_never_crashes s es p g h =
        subst (IsFit false) h (run-IsFit false (runs s) es g (p, λ had. ground arith))

    -- Once `GetPrivateKey` has given a key it never fails again as long as the loop runs: it gives the
    -- same key, the one that was pending then, or one that a rotation has made since. Premises: a
    -- phase of the loop, key ids of ten bytes or more, and key generation that does not fail before
    -- the thumbprint.
    pub run_keeps_key :
        (s s' : Loop K) (es : List (Event K)) (k : K)
        → Phase s
        → All Generates es
        → get_private_key s.keys ≡ ok k
        → run key_id (runs s) es ≡ runs s'
        → (k' : K) × (get_private_key s'.keys ≡ ok k')
          × ((k' ≡ k) ⊎ (s.keys.pending ≡ some k') ⊎ IsMade k' es)
    unfolding get_private_key
    run_keeps_key s s' es k p g had h =
        let active : (j : K) × (s.keys.active ≡ some j) = elim (Option-cases s.keys.active) [
          | inl e ↦ cc (rw (e, get_private_key) at had)
          | inr found ↦ found
        ] in
        let (phase, key) : IsFit true (runs s') =
          subst (IsFit true) h (run-IsFit true (runs s) es g (p, λ t. active)) in
        let (k', e) = key refl in
        let has : Has k' (run key_id (runs s) es) = subst (Has k') (sym h) (inl e) in
        (
          k',
          rw (e, get_private_key) refl,
          elim (run-Has key_id k' (runs s) es has) [
            | inl (inl same) ↦ inl (cc (rw (same, get_private_key) at had))
            | inl (inr pending) ↦ inr (inl pending)
            | inr made ↦ inr (inr made)
          ],
        )
