-- ===== src/PrivateKey/Stopping/Laws.antt =====
-- What becomes of a key that the loop makes before `Stop` looks at the pending key.
use jwtproxy.Common.{◌≡◌, ◌⊎◌, some, List, [], ◌∷◌, Bytes}
use jwtproxy.PrivateKey.Rotation
use jwtproxy.PrivateKey.Rotation.{
  Generated, no_key, no_thumbprint, Loop, Progress, stops, receives, answers, advance,
  success_panics,
}
use jwtproxy.PrivateKey.Stopping.{Pc, not_called, closed, returned}
use jwtproxy.PrivateKey.Stopping.Alive.{Alive}

abbrev pub IsIn : {K : Type 0} → K → List K → Type 0
IsIn k [] = ⊥
IsIn k (j ∷ js) = (j ≡ k) ⊎ IsIn k js

-- A goroutine was started that revokes the key, or one that saves it.
abbrev pub IsHandled : {K : Type 0} → K → Loop K → Type 0
IsHandled k s = IsIn k s.revoked ⊎ IsIn k s.saved

-- or it is pending
abbrev IsAccounted : {K : Type 0} → K → Loop K → Type 0
IsAccounted k s = (s.keys.pending ≡ some k) ⊎ IsHandled k s

module _ {K : Type 0} (key_id : K → Bytes) (k : K) where
  -- Before `Stop` has looked the key is accounted for, and then it is handled.
  Keeps : Pc → Progress K → Type 0
  Keeps not_called p = Alive (IsAccounted k) p
  Keeps closed p = Alive (IsAccounted k) p
  Keeps returned p = Alive (IsHandled k) p
