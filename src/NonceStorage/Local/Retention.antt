-- ===== src/NonceStorage/Local/Retention.antt =====
-- How long the local storage keeps a nonce that it has accepted.
use jwtproxy.Common.{◌≡◌, ◌∙◌, true, false, Bytes, bytes_eq_refl, arith}
use jwtproxy.Common.Int.{◌+ℤ◌, ◌-ℤ◌, ◌≤ℤ◌, ◌<ℤ◌, +ℤ_parts, -ℤ_parts}
use jwtproxy.Time.{Clock, Time, max_duration, sub}
use jwtproxy.Time.Laws.{add_parts, sub_exact, sub_past}
use jwtproxy.NonceStorage.Local.{CacheLib, lives, World, look, store, verify}

module _ (clock : Clock) (lib : CacheLib) where
  -- the readings of the clock for the duration, and then inside go-cache's Set
  abbrev pub duration_reading : World clock lib → Time
  duration_reading w = (clock.read (clock.read w.time).1).0

  abbrev pub set_reading : World clock lib → Time
  set_reading w = (clock.read (clock.read (clock.read w.time).1).1).0

  pub verify-lives :
      (nonce : Bytes) (expiration u : Time) (w : World clock lib)
      → (verify clock lib nonce expiration w).0 ≡ true
      → lib.get nonce u (verify clock lib nonce expiration w).1.cache
        ≡ lives (sub expiration (duration_reading w)) (set_reading w) u
  unfolding verify look store
  verify-lives nonce expiration u w h =
      let missed : lib.get nonce (clock.read w.time).0 w.cache ≡ false = ground arith in
      rw missed (
        lib.get-set nonce nonce (sub expiration (duration_reading w)) (set_reading w) u w.cache
        ∙ rw (bytes_eq_refl nonce))

-- An entry with a positive duration lives no longer than that, and any other lives for ever.
pub lives_bounded :
    (expiration t v u : Time)
    → t <ℤ expiration
    → expiration ≤ℤ t +ℤ max_duration
    → lives (sub expiration t) v u ≡ true
    → u ≤ℤ expiration +ℤ (v -ℤ t)
lives_bounded e t v u early soon h =
    let exact = sub_exact e t (omega (arith, early)) soon in
    let alive = rw exact at h in
    ground (arith, alive, -ℤ_parts e t, -ℤ_parts v t, add_parts v (e -ℤ t), +ℤ_parts e (v -ℤ t))

pub lives_ever : (expiration t v u : Time) → expiration ≤ℤ t → lives (sub expiration t) v u ≡ true
lives_ever e t v u late = ground (arith, sub_past e t late)
