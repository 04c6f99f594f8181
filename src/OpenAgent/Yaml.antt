-- ===== src/OpenAgent/Yaml.antt =====
-- The values that become YAML and their ordering (internal/controller/install_agents.go,
-- toOrderedYAML): a Go map has no order, so a Go map is a list of entries whose order is arbitrary,
-- and a yaml.MapSlice is a list of entries whose order is the printed one.
pub mod TextOrder
pub mod Entries
pub mod Determinism
pub mod Ascending
pub mod Keys
use whatap_operator.Prelude.{ℕ, String, Bool, List, [], ◌∷◌, Dict, if◌then◌else◌, ◌==◌}
use whatap_operator.OpenAgent.Yaml.TextOrder.{text_leb}

-- `text_map`, `texts_map` and `object` are map[string]string, map[string][]string and
-- map[string]interface{}, `array` is []interface{}.
mutual
  pub data Value : Type 0 where
    text : String → Value
    number : ℕ → Value
    flag : Bool → Value
    texts : List String → Value
    text_map : Dict String → Value
    texts_map : Dict (List String) → Value
    object : Fields → Value
    array : Items → Value
    map_slice : Fields → Value

  pub data Items : Type 0 where
    nil : Items
    cons : Value → Items → Items

  pub data Fields : Type 0 where
    end : Fields
    field : String → Value → Fields → Fields

-- `sort.Strings` on the keys, with their values.
unfoldable pub insert_field : String → Value → Fields → Fields
insert_field k v end = field k v end
insert_field k v (field k' v' fs) =
    let rest = insert_field k v fs in
    if text_leb k k' then field k v (field k' v' fs) else field k' v' rest

unfoldable pub sort_fields : Fields → Fields
sort_fields end = end
sort_fields (field k v fs) = insert_field k v (sort_fields fs)

abbrev pub text_fields : Dict String → Fields
text_fields [] = end
text_fields ((k, v) ∷ d) = field k (text v) (text_fields d)

abbrev pub texts_fields : Dict (List String) → Fields
texts_fields [] = end
texts_fields ((k, v) ∷ d) = field k (texts v) (texts_fields d)

unfoldable mutual
  pub to_ordered_yaml : Value → Value
  to_ordered_yaml (object fs) = map_slice (sort_fields (ordered_values fs))
  to_ordered_yaml (text_map d) = map_slice (sort_fields (text_fields d))
  to_ordered_yaml (texts_map d) = map_slice (sort_fields (texts_fields d))
  to_ordered_yaml (array xs) = array (ordered_items xs)
  to_ordered_yaml v = v

  pub ordered_values : Fields → Fields
  ordered_values end = end
  ordered_values (field k v fs) = field k (to_ordered_yaml v) (ordered_values fs)

  pub ordered_items : Items → Items
  ordered_items nil = nil
  ordered_items (cons x xs) = cons (to_ordered_yaml x) (ordered_items xs)
