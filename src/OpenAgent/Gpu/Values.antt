-- ===== src/OpenAgent/Gpu/Values.antt =====
-- What the check for duplicates reads of an ordered target (internal/controller/install_agents.go,
-- generateScrapeConfig).
use whatap_operator.Prelude.{
  String, Bool, true, false, Option, none, some, or_else, Dict, ◌==◌, ◌≡◌, refl, sym, ap, ◌∙◌,
  arith, eq_of_test, and_parts, Option-cases, Bool-cases, inl, inr,
}
use mathlib.Core.Option
use whatap_operator.OpenAgent.Yaml.{
  Value, Fields, object, end, field, sort_fields, to_ordered_yaml, ordered_values,
}
use whatap_operator.OpenAgent.Yaml.Entries.{find, find-sort_fields, find-ordered_values}
use whatap_operator.OpenAgent.Yaml.Keys.{absent, distinct, ordered-distinct}
use whatap_operator.OpenAgent.Gpu.{
  last_value, target_value, check_items, check_duplicate, converted_map,
}

absent-none : (k : String) (fs : Fields) → absent k fs ≡ true → find k fs ≡ none
absent-none k fs a = elim (Option-cases (find k fs)) [
  | inl e ↦ e
  | inr (v, e) ↦ (let no : absent k fs ≡ false = rw e refl in ground (arith, no, a))
]

last_value-find :
    (j : String) (acc : Option Value) (fs : Fields)
    → distinct fs ≡ true
    → last_value j acc fs ≡ or_else (find j fs) acc
unfolding last_value distinct find
last_value-find j acc end d = refl
last_value-find j acc (field k v fs) d = elim (Bool-cases (k == j)) [
  | inl e ↦
      let gone : find j fs ≡ none =
        ap (λ x. find x fs) (sym (eq_of_test k j e)) ∙ absent-none k fs (and_parts d).0 in
      rw e (last_value-find j (some v) fs (and_parts d).1 ∙ rw gone refl)
  | inr e ↦ rw e (last_value-find j acc fs (and_parts d).1)
]

-- What the loop over the items of an ordered map finds is the ordered value of the map.
pub target_value-ordered :
    (j : String) (fs : Fields)
    → distinct fs ≡ true
    → target_value j (to_ordered_yaml (object fs)) ≡ Option.map to_ordered_yaml (find j fs)
unfolding to_ordered_yaml
target_value-ordered j fs d =
    last_value-find j none (sort_fields (ordered_values fs)) (ordered-distinct fs d)
    ∙ or_else_none _
    ∙ find-sort_fields j (ordered_values fs)
    ∙ find-ordered_values j fs
  where
    or_else_none : (o : Option Value) → or_else o none ≡ o
    or_else_none none = refl
    or_else_none (some v) = refl

-- Whether a value that is there is the labels of a duplicate.
abbrev pub duplicate_value : Dict String → Option Value → Bool
duplicate_value labels none = false
duplicate_value labels (some v) = check_duplicate labels (converted_map v)

pub check_items-find :
    (labels : Dict String) (fs : Fields)
    → distinct fs ≡ true
    → check_items labels fs ≡ duplicate_value labels (find "matchLabels" fs)
unfolding check_items distinct find
check_items-find labels end d = refl
check_items-find labels (field k v fs) d = elim (Bool-cases (k == "matchLabels")) [
  | inl e ↦
      let gone : find "matchLabels" fs ≡ none =
        ap (λ x. find x fs) (sym (eq_of_test k "matchLabels" e))
        ∙ absent-none k fs (and_parts d).0 in
      let rest : check_items labels fs ≡ false =
        check_items-find labels fs (and_parts d).1 ∙ rw gone refl in
      rw (e, rest) (ground arith)
  | inr e ↦ rw e (check_items-find labels fs (and_parts d).1)
]
