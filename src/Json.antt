-- ===== src/Json.antt =====
-- JSON values, as `serde_json::Value` has them, and the accessors that the source calls.
use agentbeacon.Base.{
  ◌≡◌, refl, Bool, true, false, List, [], ◌∷◌, Option, none, some, String, ℤ, pos, negsuc, leb,
  i64_max, str_eq, if◌then◌else◌, ◌>>=◌,
}

-- An integer of any size, or a number with a fraction or an exponent as it is written.
pub data Number : Type 0 where
  int : ℤ → Number
  float : String → Number

mutual
  pub data Json : Type 0 where
    null : Json
    bool : Bool → Json
    num : Number → Json
    str : String → Json
    arr : Items → Json
    obj : Fields → Json

  pub data Items : Type 0 where
    nil : Items
    cons : Json → Items → Items

  pub data Fields : Type 0 where
    end : Fields
    field : String → Json → Fields → Fields

abbrev pub to_list : Items → List Json
to_list nil = []
to_list (cons v vs) = v ∷ to_list vs

abbrev pub from_list : List Json → Items
from_list [] = nil
from_list (v ∷ vs) = cons v (from_list vs)

pub to_list-from_list : (vs : List Json) → to_list (from_list vs) ≡ vs
to_list-from_list [] = refl
to_list-from_list (v ∷ vs) = cc (to_list-from_list vs)

abbrev pub field_of : String → Fields → Option Json
field_of key end = none
field_of key (field k v fs) = if str_eq k key then some v else field_of key fs

-- `Value::get` with a text: a member of an object, `none` for any other value.
abbrev pub get : String → Json → Option Json
get key (obj fs) = field_of key fs
get key _ = none

abbrev pub is_object : Json → Bool
is_object (obj fs) = true
is_object _ = false

abbrev pub as_str : Json → Option String
as_str (str s) = some s
as_str _ = none

abbrev pub as_bool : Json → Option Bool
as_bool (bool b) = some b
as_bool _ = none

abbrev pub as_array : Json → Option (List Json)
as_array (arr vs) = some (to_list vs)
as_array _ = none

-- `v.get(key).and_then(|t| t.as_str())`.
abbrev pub get_str : String → Json → Option String
get_str key v = do t ← get key v; as_str t

-- `Number::as_i64`: an integer that an `i64` holds.
abbrev pub as_i64 : Number → Option ℤ
as_i64 (int (pos n)) = if leb n i64_max then some (pos n) else none
as_i64 (int (negsuc n)) = if leb n i64_max then some (negsuc n) else none
as_i64 (float s) = none
