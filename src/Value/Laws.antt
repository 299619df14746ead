-- ===== src/Value/Laws.antt =====
-- What encoding/json can yield, and that it never deeply equals a value of the two types that only
-- yaml.v2 yields.
use jwtproxy.Common.{false, ◌≡◌, refl}
use jwtproxy.Value.{Value, null, bool, int, int64, float, str, list, map, any_map, deep_equal}

-- the outermost constructor is one that encoding/json uses for `interface{}`
abbrev pub IsJson : Value → Type 0
IsJson null = Unit
IsJson (bool b) = Unit
IsJson (float b) = Unit
IsJson (str s) = Unit
IsJson (list xs) = Unit
IsJson (map m) = Unit
IsJson _ = ⊥

-- whole numbers and nested mappings as yaml.v2 decodes them
abbrev pub IsYamlOnly : Value → Type 0
IsYamlOnly (int n) = Unit
IsYamlOnly (any_map m) = Unit
IsYamlOnly _ = ⊥

pub deep_equal-yaml_only : (v w : Value) → IsJson v → IsYamlOnly w → deep_equal v w ≡ false
unfolding deep_equal
deep_equal-yaml_only v (int n) j y = json_int v j
  where
    json_int : (u : Value) → IsJson u → deep_equal u (int n) ≡ false
    json_int null j = refl
    json_int (bool b) j = refl
    json_int (float b) j = refl
    json_int (str s) j = refl
    json_int (list xs) j = refl
    json_int (map m) j = refl
    json_int (int n) j = absurd j
    json_int (int64 n) j = absurd j
    json_int (any_map m) j = absurd j
deep_equal-yaml_only v (any_map k) j y = json_map v j
  where
    json_map : (u : Value) → IsJson u → deep_equal u (any_map k) ≡ false
    json_map null j = refl
    json_map (bool b) j = refl
    json_map (float b) j = refl
    json_map (str s) j = refl
    json_map (list xs) j = refl
    json_map (map m) j = refl
    json_map (int n) j = absurd j
    json_map (int64 n) j = absurd j
    json_map (any_map m) j = absurd j
deep_equal-yaml_only v _ j y = absurd y
