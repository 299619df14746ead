-- ===== src/NonceStorage/Local/Race.antt =====
-- `Verify` looks a nonce up and sets it in two calls of the cache, each of them locked by itself. Two
-- requests that are served at once may come between one another.
use jwtproxy.Common.{Bool, true, false, ◌≡◌, List, [], ◌∷◌, Bytes, if◌then◌else◌, arith}
use jwtproxy.Time.{Clock, Time}
use jwtproxy.NonceStorage.Local.{CacheLib, World, look, store, verify}

-- where a goroutine stands in `Verify`
pub data Pc : Type 0 where
  ready : Pc  -- before `ln.Get`
  missed : Pc  -- before `ln.Set`
  answered : Bool → Pc

module _ (clock : Clock) (lib : CacheLib) (nonce : Bytes) (expiration : Time) where
  -- one access to the cache by one goroutine
  unfoldable pub advance : Pc → World clock lib → Pc × World clock lib
  advance ready w =
      let (found, w') = look clock lib nonce w in (if found then answered false else missed, w')
  advance missed w = (answered true, store clock lib nonce expiration w)
  advance (answered b) w = (answered b, w)

  pub record Two : Type 0 where
    pub first : Pc
    pub second : Pc
    pub world : World clock lib

  -- `true` lets the first goroutine move, `false` the second.
  unfoldable pub move : Two → Bool → Two
  move s true = let (pc, w) = advance s.first s.world in record s { first = pc; world = w }
  move s false = let (pc, w) = advance s.second s.world in record s { second = pc; world = w }

  unfoldable pub schedule : Two → List Bool → Two
  schedule s [] = s
  schedule s (turn ∷ turns) = schedule (move s turn) turns

  abbrev pub both_ready : World clock lib → Two
  both_ready w = record { first = ready; second = ready; world = w }

  -- A goroutine that is not interrupted answers as `Verify` does, and leaves the same state.
  pub uninterrupted :
      (w : World clock lib)
      → schedule (both_ready w) (true ∷ true ∷ []) ≡ record {
        first = answered (verify clock lib nonce expiration w).0;
        second = ready;
        world = (verify clock lib nonce expiration w).1;
      }
  unfolding schedule move advance verify look
  uninterrupted w = ground arith

  -- Whenever the nonce is not in the cache at two successive readings of the clock, there is an
  -- interleaving of two requests with this nonce in which both are accepted.
  pub race :
      (w : World clock lib)
      → lib.get nonce (clock.read w.time).0 w.cache ≡ false
      → lib.get nonce (clock.read (clock.read w.time).1).0 w.cache ≡ false
      → let s = schedule (both_ready w) (true ∷ false ∷ true ∷ false ∷ []) in
        (s.first ≡ answered true) × (s.second ≡ answered true)
  unfolding schedule move advance look
  race w h k = ground arith
