-- ===== src/Command/Json.antt =====
-- What `encoding/json` decodes into an `interface{}`. An object is its fields in the order in which
-- Go ranges over the map; a map holds a key once. Of a float64 the code reads only `v > 0` and
-- `int(v)`, and these two stand for the number.
use monitor_agent.Base.{Bool, false, Option, none, some, Text, text_eq, empty, if◌then◌else◌}
use monitor_agent.Base.Int.{ℤ}

pub record Number : Type 0 where
  pub positive : Bool
  pub truncated : ℤ

mutual
  pub data Json : Type 0 where
    null : Json
    boolean : Bool → Json
    num : Number → Json
    text : Text → Json
    arr : Items → Json
    obj : Fields → Json

  pub data Items : Type 0 where
    nil : Items
    cons : Json → Items → Items

  pub data Fields : Type 0 where
    end : Fields
    field : Text → Json → Fields → Fields

-- `m[key]`
unfoldable pub lookup : Text → Fields → Option Json
lookup key end = none
lookup key (field k v fs) = if text_eq k key then some v else lookup key fs

-- `s, _ := params[key].(string)`
unfoldable pub str_param : Text → Fields → Text
unfolding lookup
str_param key params = elim (lookup key params) [ some (text s) ↦ s | _ ↦ empty ]

-- `b, _ := params[key].(bool)`
unfoldable pub bool_param : Text → Fields → Bool
unfolding lookup
bool_param key params = elim (lookup key params) [ some (boolean b) ↦ b | _ ↦ false ]

-- `v, ok := params[key].(float64)` with `ok && v > 0`
unfoldable pub pos_param : Text → Fields → Option ℤ
unfolding lookup
pos_param key params = elim (lookup key params) [
  | some (num n) ↦ if n.positive then some n.truncated else none
  | _ ↦ none
]
