-- ===== src/PrivateKey/Stopping.antt =====
-- `Stop` of jwt/privatekey/autogenerated/autogenerated.go beside the loop of `publishAndRotate`.
pub mod Alive
pub mod Laws
mod Tests
use jwtproxy.Common.{Option, List, [], ◌∷◌, Bytes}
use jwtproxy.PrivateKey.Rotation.{
  Loop, Progress, stops, rotates, receives, answers, advance, push_key,
}
use jwtproxy.PrivateKey.Rotation
use jwtproxy.PrivateKey.Rotation.Progress.{runs, ended, fatal, crashed}

-- Where `Stop` is: not called; with `stopCh` closed, before it has the lock; and past the look at the
-- pending key, where it returns `doneCh`.
pub data Pc : Type 0 where
  not_called : Pc
  closed : Pc
  returned : Pc

pub record Provider (K : Type 0) : Type 0 where
  pub progress : Progress K
  pub pc : Pc

pub data Event (K : Type 0) : Type 0 where
  -- the loop takes a case, or the publisher sets the result
  loop : Rotation.Event K → Event K
  -- `Stop` is called, and closes `stopCh`
  stop_called : Event K
  -- `Stop` gets the lock and has the pending key revoked
  looks_at_pending : Event K

-- The pending key stays where it is.
unfoldable pub revoke_pending : {K : Type 0} → Progress K → Progress K
revoke_pending (runs s) = runs (record s { revoked = push_key s.keys.pending s.revoked })
revoke_pending (ended s) = ended (record s { revoked = push_key s.keys.pending s.revoked })
revoke_pending (fatal e) = fatal e
revoke_pending crashed = crashed

module _ {K : Type 0} (key_id : K → Bytes) where
  -- The loop's case of `stopCh` is ready once the channel is closed.
  unfoldable pub loop_case : Progress K → Pc → Rotation.Event K → Progress K
  loop_case p not_called stops = p
  loop_case p not_called (rotates g) = advance key_id p (rotates g)
  loop_case p not_called receives = advance key_id p receives
  loop_case p not_called (answers v) = advance key_id p (answers v)
  loop_case p closed e = advance key_id p e
  loop_case p returned e = advance key_id p e

  -- A second call panics at the close of `stopCh`.
  unfoldable pub step : Provider K → Event K → Provider K
  step t (loop e) = record t { progress = loop_case t.progress t.pc e }
  step t stop_called = elim t.pc [
    | not_called ↦ record t { pc = closed }
    | closed ↦ record t { progress = crashed }
    | returned ↦ record t { progress = crashed }
  ]
  step t looks_at_pending = elim t.pc [
    | not_called ↦ t
    | closed ↦ record { progress = revoke_pending t.progress; pc = returned }
    | returned ↦ t
  ]

  unfoldable pub run : Provider K → List (Event K) → Provider K
  run t [] = t
  run t (e ∷ es) = run (step t e) es
