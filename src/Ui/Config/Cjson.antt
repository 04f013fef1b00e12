-- ===== src/Ui/Config/Cjson.antt =====
-- cJSON, as far as ui/ui_config_parse.c calls it: another library, so a parameter. The tests of a node's
-- type and the reads of its value are one operation here, and a null pointer is `none`.
use frameworks_system_ota.Prelude.{ℕ, String, Bool, Option, none, some, List, []}
use frameworks_system_ota.Prelude.Int.{ℤ}

pub record Cjson : Type 1 where
  pub Node : Type 0
  -- `cJSON_GetObjectItem` and `cJSON_GetObjectItemCaseSensitive`
  pub get_object_item : Node → String → Option Node
  pub get_object_item_case_sensitive : Node → String → Option Node
  -- `cJSON_IsNumber` and `valueint`, `cJSON_IsString` and `valuestring`
  pub number : Node → Option ℤ
  pub text : Node → Option String
  pub is_array : Node → Bool
  pub is_object : Node → Bool
  -- The nodes that `cJSON_ArrayForEach` visits and `cJSON_GetArraySize` counts.
  pub children : Node → List Node
  -- The field `string`: an item of an array has none.
  pub key : Node → Option String
  pub parse : List ℕ → Option Node

-- The calls on a pointer that may be null.
module _ (cj : Cjson) where
  abbrev pub item : Option cj.Node → String → Option cj.Node
  item none k = none
  item (some n) k = cj.get_object_item n k

  abbrev pub text_of : Option cj.Node → Option String
  text_of none = none
  text_of (some n) = cj.text n

  abbrev pub number_of : Option cj.Node → Option ℤ
  number_of none = none
  number_of (some n) = cj.number n

  -- The number of an item whose case counts.
  abbrev pub number_item : Option cj.Node → String → Option ℤ
  number_item none k = none
  number_item (some n) k = number_of (cj.get_object_item_case_sensitive n k)

  abbrev pub children_of : Option cj.Node → List cj.Node
  children_of none = []
  children_of (some n) = cj.children n
