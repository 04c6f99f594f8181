-- ===== src/OpenAgent/Yaml/Entries.antt =====
-- What a key has in the ordered form of a map (internal/controller/install_agents.go,
-- toOrderedYAML).
use whatap_operator.Prelude.{
  String, Option, none, some, [], ◌∷◌, Dict, if◌then◌else◌, ◌==◌, ◌≡◌, refl, ap, ◌∙◌, arith, eq_iff,
  lookup,
}
use mathlib.Core.Option
use whatap_operator.OpenAgent.Yaml.{
  Value, Fields, text, text_map, object, map_slice, end, field, insert_field, sort_fields,
  text_fields, to_ordered_yaml, ordered_values,
}
use whatap_operator.OpenAgent.Yaml.TextOrder.{text_leb, text_leb_refl}

-- What a map or a yaml.MapSlice has for a key.
unfoldable pub find : String → Fields → Option Value
find j end = none
find j (field k v fs) = if k == j then some v else find j fs

abbrev pub entries : Value → Fields
entries (object fs) = fs
entries (text_map d) = text_fields d
entries (map_slice fs) = fs
entries v = end

pub find-insert_field :
    (j k : String) (v : Value) (fs : Fields)
    → find j (insert_field k v fs) ≡ (if k == j then some v else find j fs)
unfolding find insert_field
find-insert_field j k v end = refl
find-insert_field j k v (field k' v' fs) = ground (
  arith,
  find-insert_field j k v fs,
  eq_iff k j,
  eq_iff k' j,
  text_leb_refl k,
  ap (text_leb k) ((eq_iff k' j).0 _),
  ap (text_leb k) ((eq_iff k j).0 _),
)

pub find-sort_fields : (j : String) (fs : Fields) → find j (sort_fields fs) ≡ find j fs
unfolding find sort_fields
find-sort_fields j end = refl
find-sort_fields j (field k v fs) =
    find-insert_field j k v (sort_fields fs) ∙ ground (arith, find-sort_fields j fs)

pub find-ordered_values :
    (j : String) (fs : Fields) → find j (ordered_values fs) ≡ Option.map to_ordered_yaml (find j fs)
unfolding find to_ordered_yaml
find-ordered_values j end = refl
find-ordered_values j (field k v fs) = ground (arith, find-ordered_values j fs)

pub find-text_fields :
    (j : String) (d : Dict String) → find j (text_fields d) ≡ Option.map text (lookup j d)
unfolding find lookup
find-text_fields j [] = refl
find-text_fields j ((k, v) ∷ d) = ground (arith, find-text_fields j d)

-- The ordered form of a map has for each key the ordered form of what the map has for it: no entry
-- is lost, added or moved to another key.
pub find-to_ordered_yaml :
    (j : String) (fs : Fields)
    → find j (entries (to_ordered_yaml (object fs))) ≡ Option.map to_ordered_yaml (find j fs)
unfolding to_ordered_yaml
find-to_ordered_yaml j fs = find-sort_fields j (ordered_values fs) ∙ find-ordered_values j fs

-- What an ordered map has for a key, if the value is one.
abbrev pub at : String → Option Value → Option Value
at k (some (map_slice fs)) = find k fs
at k v = none

pub at-ordered :
    (k : String) (fs : Fields)
    → at k (some (to_ordered_yaml (object fs))) ≡ Option.map to_ordered_yaml (find k fs)
unfolding to_ordered_yaml
at-ordered k fs = find-to_ordered_yaml k fs
