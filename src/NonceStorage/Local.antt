-- ===== src/NonceStorage/Local.antt =====
-- `Local` of jwt/noncestorage/local/local.go: nonces are remembered in a go-cache until their token
-- expires. go-cache and the clock are parameters.
pub mod Replay
pub mod Retention
pub mod Race
pub mod Listed
pub mod Construct
pub mod Spec
mod Tests
use jwtproxy.Common.{Bool, true, false, not, ◌≡◌, List, [], ◌∷◌, Bytes, bytes_eq, if◌then◌else◌}
use jwtproxy.Common.Int.{pos, ◌≤ℤ◌, ltb_ℤ}
use jwtproxy.Time.{Clock, Time, Duration, add, sub}
use jwtproxy.KeyServer.{NonceStorage}

-- An entry that is set at `t` for the duration `d` is found at `u`: as long as the duration lasts, and
-- for ever if it is not positive, as the cache is made with NoExpiration.
abbrev pub lives : Duration → Time → Time → Bool
lives d t u = if ltb_ℤ (pos 0) d then not (ltb_ℤ (add t d) u) else true

-- What the code relies on of go-cache: Get, Set and the janitor's DeleteExpired, each with the instant
-- at which it is called. DeleteExpired takes away only what Get no longer finds.
pub record CacheLib : Type 1 where
  pub Cache : Type 0
  pub get : Bytes → Time → Cache → Bool
  pub set : Bytes → Duration → Time → Cache → Cache
  pub delete_expired : Time → Cache → Cache
  pub get-set :
      (k j : Bytes) (d : Duration) (t u : Time) (c : Cache)
      → get j u (set k d t c) ≡ (if bytes_eq k j then lives d t u else get j u c)
  pub get-delete_expired :
      (k : Bytes) (t u : Time) (c : Cache) → t ≤ℤ u → get k u (delete_expired t c) ≡ get k u c

module _ (clock : Clock) (lib : CacheLib) where
  pub record World : Type 0 where
    pub cache : lib.Cache
    pub time : clock.State

  -- `ln.Get(nonce)`
  unfoldable pub look : Bytes → World → Bool × World
  look nonce w = let (t, c) = clock.read w.time in (lib.get nonce t w.cache, record w { time = c })

  -- `ln.Set(nonce, struct{}{}, expiration.Sub(time.Now()))`; the clock is read here and inside Set.
  unfoldable pub store : Bytes → Time → World → World
  store nonce expiration w =
      let (t, c) = clock.read w.time in
      let (u, c') = clock.read c in
      record { cache = lib.set nonce (sub expiration t) u w.cache; time = c' }

  -- `Verify`
  unfoldable pub verify : Bytes → Time → World → Bool × World
  verify nonce expiration w =
      let (found, w') = look nonce w in
      if found then (false, w') else (true, store nonce expiration w')

  -- the storage as `jwt.Verify` is given it
  unfoldable pub local_storage : NonceStorage World
  local_storage = record { verify = verify }

  -- the janitor that go-cache runs at every purge interval
  unfoldable pub purge : World → World
  purge w =
      let (t, c) = clock.read w.time in record { cache = lib.delete_expired t w.cache; time = c }

  -- what may happen to the storage between two requests
  pub data Call : Type 0 where
    verifies : Bytes → Time → Call
    purges : Call

  unfoldable pub step : World → Call → World
  step w (verifies nonce expiration) = (verify nonce expiration w).1
  step w purges = purge w

  unfoldable pub run : World → List Call → World
  run w [] = w
  run w (c ∷ cs) = run (step w c) cs
