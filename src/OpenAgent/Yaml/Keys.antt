-- ===== src/OpenAgent/Yaml/Keys.antt =====
-- Maps with distinct keys, and loops over the items of their ordered forms
-- (internal/controller/install_agents.go, toOrderedYAML and generateScrapeConfig).
use whatap_operator.Prelude.{
  String, Bool, true, false, Option, none, some, is_some, not, ◌&&◌, ◌==◌, ◌≡◌, refl, ap, ◌∙◌,
  arith, eq_iff, and_parts, and_intro, Bool-cases, inl, inr,
}
use mathlib.Core.Option
use whatap_operator.OpenAgent.Yaml.{
  Value, Fields, end, field, insert_field, sort_fields, to_ordered_yaml, ordered_values,
}
use whatap_operator.OpenAgent.Yaml.TextOrder.{text_leb}
use whatap_operator.OpenAgent.Yaml.Entries.{
  find, find-insert_field, find-sort_fields, find-ordered_values,
}

abbrev pub absent : String → Fields → Bool
absent k fs = not (is_some (find k fs))

unfoldable pub distinct : Fields → Bool
distinct end = true
distinct (field k v fs) = absent k fs && distinct fs

insert_field-distinct :
    (k : String) (v : Value) (fs : Fields)
    → absent k fs ≡ true
    → distinct fs ≡ true
    → distinct (insert_field k v fs) ≡ true
unfolding insert_field distinct find
insert_field-distinct k v end a d = refl
insert_field-distinct k v (field l w fs) a d = elim (Bool-cases (text_leb k l)) [
  | inl e ↦ rw e (and_intro a d)
  | inr e ↦
      let parts : (absent l fs ≡ true) × (distinct fs ≡ true) = and_parts d in
      let apart : (k == l) ≡ false = ground (arith, a, eq_iff k l, eq_iff l k) in
      let rest : absent k fs ≡ true = ground (arith, a) in
      let out : absent l (insert_field k v fs) ≡ true =
        ap (λ o. not (is_some o)) (find-insert_field l k v fs) ∙ rw apart parts.0 in
      rw e (and_intro out (insert_field-distinct k v fs rest parts.1))
]

pub sort_fields-distinct : (fs : Fields) → distinct fs ≡ true → distinct (sort_fields fs) ≡ true
unfolding sort_fields distinct
sort_fields-distinct end d = refl
sort_fields-distinct (field k v fs) d =
    insert_field-distinct k v (sort_fields fs)
      (ap (λ o. not (is_some o)) (find-sort_fields k fs) ∙ (and_parts d).0)
      (sort_fields-distinct fs (and_parts d).1)

pub is_some-map {ℓ κ} :
    {A : Type ℓ} {B : Type κ} (f : A → B) (o : Option A) → is_some (Option.map f o) ≡ is_some o
is_some-map f none = refl
is_some-map f (some a) = refl

ordered_values-distinct : (fs : Fields) → distinct fs ≡ true → distinct (ordered_values fs) ≡ true
unfolding to_ordered_yaml distinct
ordered_values-distinct end d = refl
ordered_values-distinct (field k v fs) d =
    let same = ap is_some (find-ordered_values k fs) ∙ is_some-map to_ordered_yaml (find k fs) in
    and_intro (ap not same ∙ (and_parts d).0) (ordered_values-distinct fs (and_parts d).1)

pub ordered-distinct :
    (fs : Fields) → distinct fs ≡ true → distinct (sort_fields (ordered_values fs)) ≡ true
ordered-distinct fs d = sort_fields-distinct (ordered_values fs) (ordered_values-distinct fs d)
