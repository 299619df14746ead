-- ===== src/Value.antt =====
-- The dynamic values (`interface{}`) that claims and component options hold, and reflect.DeepEqual on
-- them. encoding/json yields `null`, `bool`, `float`, `str`, `list` and `map`; yaml.v2 yields `int`
-- for whole numbers and `any_map`, with keys of any type, for nested mappings.
pub mod Laws
use jwtproxy.Common.{
  ℕ, suc, ◌+◌, ◌/◌, ◌%◌, ◌^◌, Bool, true, false, not, ◌&&◌, ◌||◌, Option, none, some, List, [], ◌∷◌,
  Bytes, bytes_eq, ◌==◌, if◌then◌else◌,
}
use jwtproxy.Common.Int.{ℤ, pos, negsuc}

mutual
  pub data Value : Type 0 where
    null : Value
    bool : Bool → Value
    int : ℤ → Value
    int64 : ℤ → Value
    float : ℕ → Value  -- the 64 bits of a float64
    str : Bytes → Value
    list : Items → Value
    map : Fields → Value
    any_map : Pairs → Value

  pub data Items : Type 0 where
    nil : Items
    cons : Value → Items → Items

  pub data Fields : Type 0 where
    end : Fields
    field : Bytes → Value → Fields → Fields

  pub data Pairs : Type 0 where
    no_pairs : Pairs
    pair : Value → Value → Pairs → Pairs

abbrev pub Claims : Type 0
Claims = List (Bytes × Value)

-- `==` on float64: no NaN equals anything, and the two zeros are equal.
abbrev pub is_nan : ℕ → Bool
is_nan b = b / 2 ^ 52 % 2 ^ 11 == 2047 && not (b % 2 ^ 52 == 0)

abbrev pub float_eq : ℕ → ℕ → Bool
float_eq a b = (a == b && not (is_nan a)) || (a % 2 ^ 63 == 0 && b % 2 ^ 63 == 0)

unfoldable pub bool_eq : Bool → Bool → Bool
bool_eq true b = b
bool_eq false b = not b

unfoldable pub int_eq : ℤ → ℤ → Bool
int_eq (pos a) (pos b) = a == b
int_eq (negsuc a) (negsuc b) = a == b
int_eq (pos a) (negsuc b) = false
int_eq (negsuc a) (pos b) = false

-- `==` on interface values that can be map keys: the same dynamic type and equal scalars.
unfoldable pub key_eq : Value → Value → Bool
unfolding bool_eq int_eq bytes_eq
key_eq null null = true
key_eq (bool a) (bool b) = bool_eq a b
key_eq (int a) (int b) = int_eq a b
key_eq (int64 a) (int64 b) = int_eq a b
key_eq (float a) (float b) = float_eq a b
key_eq (str a) (str b) = bytes_eq a b
key_eq _ _ = false

unfoldable pub find_field : Bytes → Fields → Option Value
find_field k end = none
find_field k (field j v m) = if bytes_eq j k then some v else find_field k m

unfoldable pub find_pair : Value → Pairs → Option Value
find_pair k no_pairs = none
find_pair k (pair j v m) = if key_eq j k then some v else find_pair k m

unfoldable pub count_fields : Fields → ℕ
count_fields end = 0
count_fields (field k v m) = suc (count_fields m)

unfoldable pub count_pairs : Pairs → ℕ
count_pairs no_pairs = 0
count_pairs (pair k v m) = suc (count_pairs m)

-- reflect.DeepEqual: values of different types are never equal; maps are equal if they have as many
-- entries and each key of the first has a deeply equal value in the second.
unfoldable mutual
  pub deep_equal : Value → Value → Bool
  deep_equal null w = elim w [ null ↦ true | _ ↦ false ]
  deep_equal (bool a) w = elim w [ bool b ↦ bool_eq a b | _ ↦ false ]
  deep_equal (int a) w = elim w [ int b ↦ int_eq a b | _ ↦ false ]
  deep_equal (int64 a) w = elim w [ int64 b ↦ int_eq a b | _ ↦ false ]
  deep_equal (float a) w = elim w [ float b ↦ float_eq a b | _ ↦ false ]
  deep_equal (str a) w = elim w [ str b ↦ bytes_eq a b | _ ↦ false ]
  deep_equal (list xs) w = elim w [ list ys ↦ deep_equal_items xs ys | _ ↦ false ]
  deep_equal (map m) w = elim w [
    | map n ↦ count_fields m == count_fields n && deep_equal_fields m n
    | _ ↦ false
  ]
  deep_equal (any_map m) w = elim w [
    | any_map n ↦ count_pairs m == count_pairs n && deep_equal_pairs m n
    | _ ↦ false
  ]

  pub deep_equal_items : Items → Items → Bool
  deep_equal_items nil ys = elim ys [ nil ↦ true | _ ↦ false ]
  deep_equal_items (cons x xs) ys = elim ys [
    | cons y ys ↦ deep_equal x y && deep_equal_items xs ys
    | _ ↦ false
  ]

  pub deep_equal_fields : Fields → Fields → Bool
  deep_equal_fields end n = true
  deep_equal_fields (field k v m) n =
      elim (find_field k n) [ none ↦ false | some w ↦ deep_equal v w ] && deep_equal_fields m n

  pub deep_equal_pairs : Pairs → Pairs → Bool
  deep_equal_pairs no_pairs n = true
  deep_equal_pairs (pair k v m) n =
      elim (find_pair k n) [ none ↦ false | some w ↦ deep_equal v w ] && deep_equal_pairs m n
