-- ===== src/Yaml.antt =====
-- How a component reads its options: `yaml.Marshal` and `yaml.Unmarshal` into its own struct, of
-- gopkg.in/yaml.v2. A field takes the value under the name of its yaml tag, and keeps what it was if
-- there is none; other names are ignored.
use jwtproxy.Common.{Option, none, some, List, Bytes, lookup}
use jwtproxy.Common.Result.{Result, ok, ◌>>=◌}
use jwtproxy.Value.{Value, null}
use jwtproxy.Http.{Url}
use jwtproxy.Time.{Duration}
use jwtproxy.Config.{ComponentConfig}

-- Of yaml.v2: marshalling and parsing again, and the decoding of a value into a type of Go.
pub record YamlLib : Type 0 where
  pub reencode : List (Bytes × Value) → Result (List (Bytes × Value))
  pub string : Value → Result Bytes
  pub duration : Value → Result Duration
  pub url : Value → Result (Option Url)
  pub component : Value → Result ComponentConfig

-- A field with this tag, which was `before`.
unfoldable pub field :
    {A : Type 0} → Bytes → (Value → Result A) → A → List (Bytes × Value) → Result A
field tag decode before options = elim (lookup tag options) [ none ↦ ok before | some v ↦ decode v ]

-- A field that is a pointer: nil at null.
abbrev pub pointer : {A : Type 0} → (Value → Result A) → Value → Result (Option A)
pointer decode null = ok none
pointer decode v = decode v >>= λ a. ok (some a)
