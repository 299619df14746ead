-- ===== src/PrivateKey/Started.antt =====
-- The rotation from the state that the constructor starts it in.
use mathlib.Core.Path.{subst}
use jwtproxy.Common.{◌≡◌, ◌≢◌, refl, false, none, List, ◌∷◌, Bytes, All, arith}
use jwtproxy.KeyRegistry.Publish.{is_short}
use jwtproxy.PrivateKey.{Stored, uses, generates, ends_process}
use jwtproxy.PrivateKey.Rotation.{Generated, Event, rotates, run}
use jwtproxy.PrivateKey.Rotation.Progress.{crashed}
use jwtproxy.PrivateKey.Provider.{start_with, start}
use jwtproxy.PrivateKey.Laws.{Generates, IsFit, attempt_publish-IsFit, run-IsFit}
use jwtproxy.PrivateKey.Laws.Phase.{idle}

module _ {K : Type 0} (key_id : K → Bytes) (long : (k : K) → is_short (key_id k) ≡ false) where
  start-IsFit :
      (stored : Stored K) (g : Generated K)
      → Generates (rotates g)
      → IsFit false (start key_id stored g)
  unfolding start
  start-IsFit (uses key) g h = (idle refl refl, λ t. ground arith)
  start-IsFit generates g h =
      attempt_publish-IsFit key_id long false (start_with key_id none) g h (λ t. ground arith)
  start-IsFit (ends_process e) g h = tt

  -- The provider that the constructor starts, whatever key it found stored, never panics in its loop: for
  -- every sequence of stops, rotations, answers of the registry and receives in which key
  -- generation gives a key or fails at the thumbprint, with key ids of ten bytes or more.
  pub started_never_crashes :
      (stored : Stored K) (g : Generated K) (es : List (Event K))
      → All Generates (rotates g ∷ es)
      → run key_id (start key_id stored g) es ≢ crashed
  started_never_crashes stored g es (h, hs) e =
      subst (IsFit false) e
        (run-IsFit key_id long false (start key_id stored g) es hs (start-IsFit stored g h))
