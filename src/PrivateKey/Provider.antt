-- ===== src/PrivateKey/Provider.antt =====
-- The constructor of jwt/privatekey/autogenerated/autogenerated.go.
use jwtproxy.Common.{◌*◌, false, Option, none, some, List, [], Bytes, codes}
use jwtproxy.Common.Result.{Error, Result, ok, err, ◌>>=◌}
use jwtproxy.Time.{Duration, minutes}
use jwtproxy.Value.{Value}
use jwtproxy.Yaml.{YamlLib, field}
use jwtproxy.Config.{ComponentConfig, SignerParams}
use jwtproxy.KeyServer.PublishResult.{new_publish_result}
use jwtproxy.PrivateKey.{Stored, uses, generates, ends_process, check_stored}
use jwtproxy.PrivateKey.Files.{Env, key_path}
use jwtproxy.PrivateKey.Rotation.{Generated, Loop, Progress, attempt_publish}
use jwtproxy.PrivateKey.Rotation.Progress.{runs, fatal}

-- `Config`, which starts with 12 hours
pub record AutogeneratedConfig : Type 0 where
  pub rotation_interval : Duration
  pub key_server : ComponentConfig
  pub key_folder : Bytes

-- Lines 60 to 70.
unfoldable pub decode_config : YamlLib → List (Bytes × Value) → Result AutogeneratedConfig
decode_config lib options = do
  o ← lib.reencode options
  rotation ← field (codes "rotate_every") lib.duration (minutes (12 * 60)) o
  server ← field (codes "key_server") lib.component (record { type = []; options = [] }) o
  folder ← field (codes "key_folder") lib.string [] o
  ok (record { rotation_interval = rotation; key_server = server; key_folder = folder })

module _ {K : Type 0} (key_id : K → Bytes) where
  abbrev pub start_with : Option K → Loop K
  start_with active = record {
    keys = record { active = active; pending = none };
    publication_result = new_publish_result;
    in_flight = false;
    revoked = [];
    saved = [];
  }

  -- Lines 104 to 121: the provider, and its loop. Without a key one is made and published at once.
  unfoldable pub start : Stored K → Generated K → Progress K
  start (uses key) generated = runs (start_with (some key))
  start generates generated = attempt_publish key_id generated (start_with none)
  start (ends_process e) generated = fatal e

  -- `constructor`: the manager, the key on disk, its verification by the manager, and the loop. `none`
  -- is the panic of loading a key that is not one of RSA.
  unfoldable pub construct :
      {W Manager : Type 0}
      → YamlLib
      → Env
      → (new_manager : ComponentConfig → SignerParams → W → Result Manager × W)
      → (load : Bytes → W → Option (Result K)) → (verify_public_key : Manager → K → Option Error)
      → Generated K
      → ComponentConfig
      → SignerParams
      → W
      → Option (Result (Progress K) × W)
  construct lib env new_manager load verify_public_key generated component params w =
      elim (decode_config lib component.options) [
        | err e ↦ some (err e, w)
        | ok cfg ↦
            let (manager, w') = new_manager cfg.key_server params w in
            elim manager [
              | err e ↦ some (err e, w')
              | ok m ↦ elim (load (key_path env cfg.key_folder params.issuer) w') [
                | none ↦ none
                | some stored ↦
                    some (ok (start (check_stored stored (verify_public_key m)) generated), w')
              ]
            ]
      ]
