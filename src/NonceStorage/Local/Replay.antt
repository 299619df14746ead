-- ===== src/NonceStorage/Local/Replay.antt =====
-- A nonce that was accepted is refused as long as its token has not expired.
use jwtproxy.Common.{
  true, false, ◌≡◌, ◌∙◌, inl, inr, List, [], ◌∷◌, Bytes, bytes_eq, bytes_eq_refl, bytes_eq_sound,
  arith, Bool-cases,
}
use jwtproxy.Common.Int.{◌+ℤ◌, ◌-ℤ◌, ◌≤ℤ◌, ◌<ℤ◌, ltb_ℤ, +ℤ_parts, -ℤ_parts, ltb_ℤ→ge, ltb_ℤ→lt}
use jwtproxy.Time.{Clock, Time, max_duration, sub}
use jwtproxy.Time.Laws.{add_parts, sub_cases}
use jwtproxy.NonceStorage.Local.{
  CacheLib, lives, World, look, store, verify, purge, Call, verifies, purges, step, run,
}

module _ (clock : Clock) (lib : CacheLib) where
  -- Whoever looks the nonce up from now on until `expiration` finds it.
  pub record Remembers (nonce : Bytes) (expiration : Time) (w : World clock lib) : Type 0 where
    pub found :
        (u : Time) → clock.last w.time ≤ℤ u → u ≤ℤ expiration → lib.get nonce u w.cache ≡ true

  -- An entry that is set after the instant `t`, at `u`, lives until `expiration` at least.
  lives_until :
      (expiration t u v : Time)
      → t ≤ℤ u
      → expiration ≤ℤ t +ℤ max_duration
      → v ≤ℤ expiration
      → lives (sub expiration t) u v ≡ true
  lives_until expiration t u v tu short h = elim (sub_cases expiration t short) [
    | inl exact ↦ rw exact (ground (arith, -ℤ_parts expiration t, add_parts u (expiration -ℤ t)))
    | inr least ↦ rw least
  ]

  -- A second reading shows the instant of the first or a later one.
  pub reading_mono : (c : clock.State) → (clock.read c).0 ≤ℤ (clock.read (clock.read c).1).0
  reading_mono c = rw (clock.read_last c) at (clock.monotone (clock.read c).1)

  abbrev looked : World clock lib → World clock lib
  looked w = record w { time = (clock.read w.time).1 }

  last-looked : (w : World clock lib) → clock.last w.time ≤ℤ clock.last (looked w).time
  last-looked w = rw (clock.read_last w.time) (clock.monotone w.time)

  Remembers-looked :
      (nonce : Bytes) (expiration : Time) (w : World clock lib)
      → Remembers nonce expiration w
      → Remembers nonce expiration (looked w)
  Remembers-looked nonce expiration w m = record {
    found = λ u le h. m.found u (omega (arith, last-looked w)) h;
  }

  Remembers-store :
      (nonce : Bytes) (expiration : Time) (w : World clock lib)
      → expiration ≤ℤ clock.last w.time +ℤ max_duration
      → Remembers nonce expiration (store clock lib nonce expiration w)
  unfolding store
  Remembers-store nonce expiration w short = record {
    found = λ u le h.
        let t = (clock.read w.time).0 in
        let soon : expiration ≤ℤ t +ℤ max_duration = omega (
          arith,
          clock.monotone w.time,
          +ℤ_parts t max_duration,
          +ℤ_parts (clock.last w.time) max_duration,
        ) in
        lib.get-set nonce nonce (sub expiration t) (clock.read (clock.read w.time).1).0 u w.cache
        ∙ rw (bytes_eq_refl nonce) (
            lives_until expiration t (clock.read (clock.read w.time).1).0 u (reading_mono w.time)
              soon h);
  }

  -- An accepted nonce is remembered until its token expires.
  pub Remembers-verify :
      (nonce : Bytes) (expiration : Time) (w : World clock lib)
      → expiration ≤ℤ clock.last w.time +ℤ max_duration
      → (verify clock lib nonce expiration w).0 ≡ true
      → Remembers nonce expiration (verify clock lib nonce expiration w).1
  unfolding verify look
  Remembers-verify nonce expiration w short h =
      let missed : lib.get nonce (clock.read w.time).0 w.cache ≡ false = ground arith in
      rw (missed) (
        Remembers-store nonce expiration (looked w) (
          omega (
            arith,
            last-looked w,
            +ℤ_parts (clock.last w.time) max_duration,
            +ℤ_parts (clock.last (looked w).time) max_duration,
          )))

  -- Another nonce, or the same one after its token has expired, may be set meanwhile.
  Remembers-store_later :
      (nonce k : Bytes) (expiration e : Time) (w : World clock lib)
      → (bytes_eq k nonce ≡ true → expiration <ℤ clock.last w.time)
      → Remembers nonce expiration w
      → Remembers nonce expiration (store clock lib k e w)
  unfolding store
  Remembers-store_later nonce k expiration e w over m = record {
    found = λ u le h.
        let c = (clock.read w.time).1 in
        let start : clock.last w.time ≤ℤ u =
          omega (arith, rw (clock.read_last c) at le, reading_mono w.time, clock.monotone w.time) in
        elim (Bool-cases (bytes_eq k nonce)) [
          | inl same ↦ absurd (omega (arith, over same))
          | inr other ↦
              lib.get-set k nonce (sub e (clock.read w.time).0) (clock.read c).0 u w.cache
              ∙ rw other (m.found u start h)
        ];
  }

  -- A nonce that is remembered is missed only after its token has expired.
  missed_late :
      (nonce k : Bytes) (expiration : Time) (w : World clock lib)
      → lib.get k (clock.read w.time).0 w.cache ≡ false
      → bytes_eq k nonce ≡ true
      → Remembers nonce expiration w
      → expiration <ℤ clock.last (looked w).time
  missed_late nonce k expiration w miss same m =
      let now = (clock.read w.time).0 in
      elim (Bool-cases (ltb_ℤ expiration now)) [
        | inl late ↦ rw (clock.read_last w.time) (ltb_ℤ→lt expiration now late)
        | inr early ↦
            let hit = m.found now (clock.monotone w.time) (ltb_ℤ→ge expiration now early) in
            cc (miss, rw (← bytes_eq_sound k nonce same) at hit)
      ]

  Remembers-verifies :
      (nonce k : Bytes) (expiration e : Time) (w : World clock lib)
      → Remembers nonce expiration w
      → Remembers nonce expiration (verify clock lib k e w).1
  unfolding verify look
  Remembers-verifies nonce k expiration e w m =
      elim (Bool-cases (lib.get k (clock.read w.time).0 w.cache)) [
        | inl hit ↦ rw hit (Remembers-looked nonce expiration w m)
        | inr miss ↦ rw miss (
            Remembers-store_later nonce k expiration e (looked w)
              (λ same. missed_late nonce k expiration w miss same m)
              (Remembers-looked nonce expiration w m))
      ]

  Remembers-purge :
      (nonce : Bytes) (expiration : Time) (w : World clock lib)
      → Remembers nonce expiration w
      → Remembers nonce expiration (purge clock lib w)
  unfolding purge
  Remembers-purge nonce expiration w m = record {
    found = λ u le h.
        let now : (clock.read w.time).0 ≤ℤ u = rw (clock.read_last w.time) at le in
        lib.get-delete_expired nonce (clock.read w.time).0 u w.cache now
        ∙ m.found u (omega (arith, clock.monotone w.time)) h;
  }

  pub Remembers-run :
      (nonce : Bytes) (expiration : Time) (w : World clock lib) (cs : List (Call clock lib))
      → Remembers nonce expiration w
      → Remembers nonce expiration (run clock lib w cs)
  unfolding run step
  Remembers-run nonce expiration w [] m = m
  Remembers-run nonce expiration w (verifies k e ∷ cs) m =
      Remembers-run nonce expiration (verify clock lib k e w).1 cs
        (Remembers-verifies nonce k expiration e w m)
  Remembers-run nonce expiration w (purges ∷ cs) m =
      Remembers-run nonce expiration (purge clock lib w) cs (Remembers-purge nonce expiration w m)

  pub Remembers-refuses :
      (nonce : Bytes) (expiration e : Time) (w : World clock lib)
      → Remembers nonce expiration w
      → (clock.read w.time).0 ≤ℤ expiration
      → (verify clock lib nonce e w).0 ≡ false
  unfolding verify look
  Remembers-refuses nonce expiration e w m h =
      rw (m.found (clock.read w.time).0 (clock.monotone w.time) h)

  -- Replay protection: once a nonce is accepted, whatever requests and purges follow, it is refused
  -- as long as the clock reads no later than the expiration that it was accepted with. The expiration
  -- is less than 292 years away.
  pub replay_refused :
      (nonce : Bytes) (expiration e : Time) (w : World clock lib) (cs : List (Call clock lib))
      → expiration ≤ℤ clock.last w.time +ℤ max_duration
      → (verify clock lib nonce expiration w).0 ≡ true
      → (clock.read (run clock lib (verify clock lib nonce expiration w).1 cs).time).0 ≤ℤ expiration
      → (verify clock lib nonce e (run clock lib (verify clock lib nonce expiration w).1 cs)).0
        ≡ false
  replay_refused nonce expiration e w cs short accepted now =
      Remembers-refuses nonce expiration e _
        (Remembers-run nonce expiration _ cs (Remembers-verify nonce expiration w short accepted))
        now
