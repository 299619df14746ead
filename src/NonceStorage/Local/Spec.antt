-- ===== src/NonceStorage/Local/Spec.antt =====
-- The contract of the local nonce storage: a memory of nonces, each with the instant up to which it is
-- held. No cache and no purges are in it; the storage answers every sequence of calls as it does.
use jwtproxy.Common.{
  Bool, true, false, not, ◌≡◌, refl, ap, ◌∙◌, inl, inr, Bool-cases, Option, none, some, List, [],
  ◌∷◌, Bytes, bytes_eq, lookup, insert, lookup-insert, if◌then◌else◌, arith,
}
use jwtproxy.Common.Int.{pos, ◌≤ℤ◌, ltb_ℤ}
use jwtproxy.Time.{Clock, Time, Duration, add, sub}
use jwtproxy.NonceStorage.Local.{
  CacheLib, lives, World, look, store, verify, purge, Call, verifies, purges,
}

-- up to when an entry of this duration is held; none is for ever
abbrev pub until : Duration → Time → Option Time
until d t = if ltb_ℤ (pos 0) d then some (add t d) else none

abbrev pub is_held : Option (Option Time) → Time → Bool
is_held none u = false
is_held (some none) u = true
is_held (some (some e)) u = not (ltb_ℤ e u)

module _ (clock : Clock) where
  pub record Memory : Type 0 where
    pub entries : List (Bytes × Option Time)
    pub time : clock.State

  -- A nonce that is not held is accepted, and held from then on.
  abbrev pub remember : Bytes → Time → Memory → Bool × Memory
  remember nonce expiration m =
      let (t, c) = clock.read m.time in
      let (t1, c1) = clock.read c in
      let (t2, c2) = clock.read c1 in
      if is_held (lookup nonce m.entries) t then (false, record m { time = c }) else (
        true,
        record { entries = insert nonce (until (sub expiration t1) t2) m.entries; time = c2 },
      )

  -- Only the clock goes on.
  abbrev pub rest : Memory → Memory
  rest m = record m { time = (clock.read m.time).1 }

  module _ (lib : CacheLib) where
    -- the answers of the memory to a sequence of calls
    unfoldable pub spec_answers : List (Call clock lib) → Memory → List Bool
    spec_answers [] m = []
    spec_answers (verifies nonce expiration ∷ cs) m =
        let (b, m') = remember nonce expiration m in b ∷ spec_answers cs m'
    spec_answers (purges ∷ cs) m = spec_answers cs (rest m)

    -- the answers of the storage
    unfoldable pub answers : List (Call clock lib) → World clock lib → List Bool
    answers [] w = []
    answers (verifies nonce expiration ∷ cs) w =
        let (b, w') = verify clock lib nonce expiration w in b ∷ answers cs w'
    answers (purges ∷ cs) w = answers cs (purge clock lib w)

    -- From now on the cache finds what the entries hold.
    pub Agrees : World clock lib → List (Bytes × Option Time) → Type 0
    Agrees w entries =
        (j : Bytes) (u : Time)
        → clock.last w.time ≤ℤ u
        → lib.get j u w.cache ≡ is_held (lookup j entries) u

    lives-is_held : (d : Duration) (t u : Time) → lives d t u ≡ is_held (some (until d t)) u
    lives-is_held d t u = elim (Bool-cases (ltb_ℤ (pos 0) d)) [
      | inl e ↦ rw e refl
      | inr e ↦ rw e refl
    ]

    last_le_read : (c : clock.State) → clock.last c ≤ℤ clock.last (clock.read c).1
    last_le_read c = rw (clock.read_last c) (clock.monotone c)

    abbrev looked : World clock lib → World clock lib
    looked w = record w { time = (clock.read w.time).1 }

    looked-Agrees :
        (w : World clock lib) (entries : List (Bytes × Option Time))
        → Agrees w entries
        → Agrees (looked w) entries
    unfolding Agrees
    looked-Agrees w entries a = λ j u h. a j u (omega (arith, last_le_read w.time))

    purge-Agrees :
        (w : World clock lib) (entries : List (Bytes × Option Time))
        → Agrees w entries
        → Agrees (purge clock lib w) entries
    unfolding Agrees purge
    purge-Agrees w entries a = λ j u h.
        lib.get-delete_expired j (clock.read w.time).0 u w.cache (rw (← clock.read_last w.time) h)
        ∙ a j u (omega (arith, last_le_read w.time))

    -- the entries behind `store`
    abbrev stored_entries :
        Bytes → Time → World clock lib → List (Bytes × Option Time) → List (Bytes × Option Time)
    stored_entries nonce expiration w entries =
        let (t1, c1) = clock.read w.time in
        let (t2, c2) = clock.read c1 in insert nonce (until (sub expiration t1) t2) entries

    store-Agrees :
        (nonce : Bytes) (expiration : Time) (w : World clock lib)
        (entries : List (Bytes × Option Time))
        → Agrees w entries
        → Agrees (store clock lib nonce expiration w) (stored_entries nonce expiration w entries)
    unfolding Agrees store
    store-Agrees nonce expiration w entries a = λ j u h.
        let d = sub expiration (clock.read w.time).0 in
        let t2 = (clock.read (clock.read w.time).1).0 in
        lib.get-set nonce j d t2 u w.cache ∙ elim (Bool-cases (bytes_eq nonce j)) [
          | inl same ↦ rw (lookup-insert nonce j (until d t2) entries, same) (lives-is_held d t2 u)
          | inr other ↦
              rw (lookup-insert nonce j (until d t2) entries, other)
                (a j u (omega (arith, last_le_read w.time, last_le_read (clock.read w.time).1)))
        ]

    -- The storage gives the answers of the memory.
    answers_refine :
        (cs : List (Call clock lib)) (w : World clock lib) (entries : List (Bytes × Option Time))
        → Agrees w entries
        → answers cs w ≡ spec_answers cs (record { entries = entries; time = w.time })
    unfolding answers spec_answers Agrees purge store verify look
    answers_refine [] w entries a = refl
    answers_refine (purges ∷ cs) w entries a =
        answers_refine cs (purge clock lib w) entries (purge-Agrees w entries a)
    answers_refine (verifies nonce expiration ∷ cs) w entries a =
        let found = a nonce (clock.read w.time).0 (clock.monotone w.time) in
        elim (Bool-cases (is_held (lookup nonce entries) (clock.read w.time).0)) [
          | inl held ↦
              rw (found ∙ held, held, verify, look)
                (ap (λ l. false ∷ l)
                  (answers_refine cs (looked w) entries (looked-Agrees w entries a)))
          | inr free ↦
              rw (found ∙ free, free, verify, look)
                (ap (λ l. true ∷ l)
                  (answers_refine cs (store clock lib nonce expiration (looked w))
                    (stored_entries nonce expiration (looked w) entries)
                    (store-Agrees nonce expiration (looked w) entries (looked-Agrees w entries a))))
        ]

    -- The local storage over a new cache, in which nothing is found, answers every sequence of calls, with
    -- purges anywhere between them, as the memory does that starts out empty and is never purged.
    pub local_refines :
        (cs : List (Call clock lib)) (w : World clock lib)
        → ((j : Bytes) (u : Time) → lib.get j u w.cache ≡ false)
        → answers cs w ≡ spec_answers cs (record { entries = []; time = w.time })
    unfolding Agrees lookup
    local_refines cs w new = answers_refine cs w [] (λ j u h. new j u)
