-- ===== src/PrivateKey/Rotation.antt =====
-- The goroutine `publishAndRotate` of jwt/privatekey/autogenerated/autogenerated.go with
-- `attemptPublish`, case by case of its `select`.
use jwtproxy.Common.{
  Bool, true, false, ◌||◌, Option, none, some, List, [], ◌∷◌, Bytes, if◌then◌else◌,
}
use jwtproxy.Common.Result.{Error}
use jwtproxy.KeyRegistry.Publish.{is_short}
use jwtproxy.KeyServer.PublishResult.{
  PublishResult, done, new_publish_result, set_result, cancel, receive,
}
use jwtproxy.PrivateKey.{Autogenerated}

-- What key generation comes to: GeneratePrivateKey fails, the thumbprint fails, or there is a key.
pub data Generated (K : Type 0) : Type 0 where
  no_key : Generated K
  no_thumbprint : Error → Generated K
  makes : K → Generated K

-- The loop's state: the keys, the result it waits for, and whether a publication is still to
-- answer it; and the goroutines it started: keys to revoke and keys to save.
pub record Loop (K : Type 0) : Type 0 where
  pub keys : Autogenerated K
  pub publication_result : PublishResult
  pub in_flight : Bool
  pub revoked : List K
  pub saved : List K

pub data Progress (K : Type 0) : Type 0 where
  -- in the loop
  runs : Loop K → Progress K
  -- returned, with `doneCh` closed
  ended : Loop K → Progress K
  -- log.Fatal
  fatal : Error → Progress K
  -- a panic
  crashed : Progress K

-- The case that is taken, or the publisher setting the result.
pub data Event (K : Type 0) : Type 0 where
  stops : Event K
  rotates : Generated K → Event K
  receives : Event K
  answers : Option Error → Event K

-- the keys to revoke or save, and one more if there is one
abbrev pub push_key : {K : Type 0} → Option K → List K → List K
push_key none ks = ks
push_key (some k) ks = k ∷ ks

module _ {K : Type 0} (key_id : K → Bytes) where
  abbrev short_key : Option K → Bool
  short_key none = false
  short_key (some k) = is_short (key_id k)

  -- `getLogger` panics if one of the keys has an id of fewer than ten bytes.
  unfoldable pub logger_panics : Autogenerated K → Bool
  logger_panics ag = short_key ag.active || short_key ag.pending

  -- `attemptPublish`: the nil key of a failed generation is dereferenced at once.
  unfoldable pub attempt_publish : Generated K → Loop K → Progress K
  attempt_publish no_key s = crashed
  attempt_publish (no_thumbprint e) s = elim (set_result (some e) new_publish_result) [
    | done pr ↦ runs (record s { publication_result = pr; in_flight = false })
    | _ ↦ crashed
  ]
  attempt_publish (makes candidate) s = runs (record s {
    keys = record s.keys { pending = some candidate };
    publication_result = new_publish_result;
    in_flight = true;
    revoked = push_key s.keys.pending s.revoked;
  })

  -- Lines 313 to 324: the pending key becomes active.
  abbrev pub swap : Loop K → Loop K
  swap s = record s {
    keys = record { active = s.keys.pending; pending = none };
    publication_result = new_publish_result;
    in_flight = false;
    saved = push_key s.keys.pending s.saved;
  }

  -- After a publication `getLogger` may panic, and the goroutine that saves the pending key dereferences
  -- nil if there is none.
  unfoldable pub success_panics : Loop K → Bool
  success_panics s = elim s.keys.pending [ none ↦ true | some k ↦ logger_panics (swap s).keys ]

  -- One round of the loop, or one move of the publisher. A receive with nothing to receive is a case
  -- that is not ready.
  unfoldable pub step : Loop K → Event K → Progress K
  step s stops = if logger_panics s.keys then crashed else elim (cancel s.publication_result) [
    | done pr ↦ ended (record s { publication_result = pr })
    | _ ↦ crashed
  ]
  step s (rotates generated) =
      if logger_panics s.keys then crashed else elim (cancel s.publication_result) [
        | done pr ↦ attempt_publish generated s
        | _ ↦ crashed
      ]
  step s receives = elim (receive s.publication_result).0 [
    | none ↦ runs s
    | some (some e) ↦ if logger_panics s.keys then crashed else fatal e
    | some none ↦ if success_panics s then crashed else runs (swap s)
  ]
  step s (answers v) =
      if s.in_flight
      then elim (set_result v s.publication_result) [
        | done pr ↦ runs (record s { publication_result = pr; in_flight = false })
        | _ ↦ crashed
      ]
      else runs s

  abbrev pub advance : Progress K → Event K → Progress K
  advance (runs s) e = step s e
  advance p e = p

  unfoldable pub run : Progress K → List (Event K) → Progress K
  run p [] = p
  run p (e ∷ es) = run (advance p e) es
