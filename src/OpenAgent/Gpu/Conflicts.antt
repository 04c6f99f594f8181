-- ===== src/OpenAgent/Gpu/Conflicts.antt =====
-- When a target conflicts with the one for GPU monitoring, in terms of its resource
-- (internal/controller/install_agents.go, generateScrapeConfig).
use whatap_operator.Prelude.{
  String, Bool, true, false, Option, some, List, [], ◌∷◌, map, Dict, if◌then◌else◌, is_empty, any,
  all, ◌&&◌, ◌||◌, ◌==◌, ◌≡◌, refl, ap, ◌∙◌, sym, arith, and_parts, Bool-cases, inl, inr,
}
use mathlib.Core.Option
use whatap_operator.Webhook.Types.{PodSelector}
use whatap_operator.OpenAgent.Types.{OpenAgentTargetSpec, WhatapPodMonitor, WhatapStaticEndpoint}
use whatap_operator.OpenAgent.Yaml.{
  Value, Fields, object, text_map, end, to_ordered_yaml, ordered_values, sort_fields,
}
use whatap_operator.OpenAgent.Yaml.Entries.{find, find-ordered_values, find-sort_fields}
use whatap_operator.OpenAgent.Yaml.Keys.{distinct, ordered-distinct}
use whatap_operator.OpenAgent.Convert.{set, set_labels, convert_label_selector}
use whatap_operator.OpenAgent.Convert.Lookup.{find-skip}
use whatap_operator.OpenAgent.Convert.Keys.{skip-distinct}
use whatap_operator.OpenAgent.Targets.{
  target_map, inline_targets, monitor_map, monitor_name, static_target,
}
use whatap_operator.OpenAgent.Gpu.{
  check_duplicate, gpu_target_name, conflicts, is_text, selects_agent,
}
use whatap_operator.OpenAgent.Gpu.Values.{target_value-ordered, check_items-find, duplicate_value}
use whatap_operator.OpenAgent.Gpu.Reads.{
  Reads, target_map-Reads, monitor_map-Reads, static_map-Reads, selector_value,
}
use whatap_operator.OpenAgent.Gpu.Labels.{distinct_keys, check_duplicate-ordered}

pub ap2 : {A B C : Type 0} (f : A → B → C) {a a' : A} {b b' : B} → a ≡ a' → b ≡ b' → f a b ≡ f a' b'
ap2 f {a} {a'} {b} {b'} p q = ap (λ x. f x b) p ∙ ap (f a') q

any_if :
    {A : Type 0} (p : A → Bool) (b : Bool) (x : A) (xs : List A) {c d : Bool}
    → p x ≡ c
    → any p xs ≡ d
    → any p (if b then x ∷ xs else xs) ≡ ((b && c) || d)
any_if p true x xs h k = ap2 (λ a b. a || b) h k
any_if p false x xs h k = k

end_distinct : distinct end ≡ true
unfolding distinct
end_distinct = refl

selector-distinct : (s : PodSelector) → distinct (convert_label_selector s) ≡ true
unfolding convert_label_selector
selector-distinct s = skip-distinct "matchExpressions" _ _ _ (
    skip-distinct "matchLabels" (text_map s.match_labels) (is_empty s.match_labels) end
      end_distinct)

-- What a conflict of a resource is, without its target: the name of the GPU target, or labels that
-- the GPU agent has.
module _ (labels : Dict String) where
  abbrev pub target_conflicts : OpenAgentTargetSpec → Bool
  target_conflicts t =
      t.enabled
      && (t.target_name == gpu_target_name || check_duplicate labels t.selector.match_labels)

  abbrev pub monitor_conflicts : WhatapPodMonitor → Bool
  monitor_conflicts m =
      monitor_name m.namespace m.name == gpu_target_name
      || check_duplicate labels m.selector.match_labels

  abbrev pub static_conflicts : WhatapStaticEndpoint → Bool
  static_conflicts se = monitor_name se.namespace se.name == gpu_target_name

  labels_ordered :
      (d : Dict String)
      → distinct_keys d ≡ true
      → duplicate_value labels
          (Option.map to_ordered_yaml (find "matchLabels" (set_labels "matchLabels" d end)))
        ≡ check_duplicate labels d
  unfolding to_ordered_yaml set find check_duplicate
  labels_ordered [] h = refl
  labels_ordered (l ∷ d) h = check_duplicate-ordered labels (l ∷ d) h

  selector_ordered :
      (s : PodSelector)
      → distinct_keys s.match_labels ≡ true
      → selects_agent labels (some (to_ordered_yaml (object (convert_label_selector s))))
        ≡ check_duplicate labels s.match_labels
  unfolding to_ordered_yaml convert_label_selector
  selector_ordered s h =
      let fs = convert_label_selector s in
      check_items-find labels (sort_fields (ordered_values fs))
        (ordered-distinct fs (selector-distinct s))
      ∙ ap (duplicate_value labels) (
          find-sort_fields "matchLabels" (ordered_values fs)
          ∙ find-ordered_values "matchLabels" fs
          ∙ ap (Option.map to_ordered_yaml) (find-skip "matchLabels" "matchExpressions" _ _ _ refl))
      ∙ labels_ordered s.match_labels h

  -- A target is read by its name and its selector.
  conflicts-Reads :
      (m : Fields) (name : String) (selector : Option Value)
      → Reads m name selector
      → conflicts labels (to_ordered_yaml (object m))
        ≡ (name == gpu_target_name || selects_agent labels (Option.map to_ordered_yaml selector))
  unfolding to_ordered_yaml
  conflicts-Reads m name selector r =
      let d = r.distinct_keys_of in
      let name_read =
        target_value-ordered "targetName" m d ∙ ap (Option.map to_ordered_yaml) r.name_of in
      let read =
        target_value-ordered "selector" m d ∙ ap (Option.map to_ordered_yaml) r.selector_of in
      ap2 (λ a b. is_text gpu_target_name a || selects_agent labels b) name_read read

  selector_value_conflicts :
      (s : PodSelector)
      → distinct_keys s.match_labels ≡ true
      → selects_agent labels (Option.map to_ordered_yaml (selector_value s))
        ≡ check_duplicate labels s.match_labels
  unfolding check_duplicate
  selector_value_conflicts s h =
      elim (Bool-cases (is_empty s.match_labels && is_empty s.match_expressions)) [
        | inl e ↦
            let gone : is_empty s.match_labels ≡ true = (and_parts e).0 in
            let no : check_duplicate labels s.match_labels ≡ false = rw gone refl in rw e (sym no)
        | inr e ↦ rw e (selector_ordered s h)
      ]

  pub inline_any :
      (ts : List OpenAgentTargetSpec)
      → all (λ t. distinct_keys t.selector.match_labels) ts ≡ true
      → any (conflicts labels) (inline_targets ts) ≡ any target_conflicts ts
  unfolding inline_targets
  inline_any [] h = refl
  inline_any (t ∷ ts) h =
      let here =
        conflicts-Reads _ _ _ (target_map-Reads t)
        ∙ ap (λ b. t.target_name == gpu_target_name || b)
            (selector_value_conflicts t.selector (and_parts h).0) in
      any_if (conflicts labels) t.enabled (to_ordered_yaml (object (target_map t)))
        (inline_targets ts) here (inline_any ts (and_parts h).1)

  pub monitors_any :
      (kind : String) (ms : List WhatapPodMonitor)
      → all (λ m. distinct_keys m.selector.match_labels) ms ≡ true
      → any (conflicts labels) (map (λ m. to_ordered_yaml (object (monitor_map kind m))) ms)
        ≡ any monitor_conflicts ms
  monitors_any kind [] h = refl
  monitors_any kind (m ∷ ms) h =
      let here =
        conflicts-Reads _ _ _ (monitor_map-Reads kind m)
        ∙ ap (λ b. monitor_name m.namespace m.name == gpu_target_name || b)
            (selector_ordered m.selector (and_parts h).0) in
      ap2 (λ a b. a || b) here (monitors_any kind ms (and_parts h).1)

  pub statics_any :
      (ses : List WhatapStaticEndpoint)
      → any (conflicts labels) (map static_target ses) ≡ any static_conflicts ses
  unfolding static_target
  statics_any [] = refl
  statics_any (se ∷ ses) =
      let here = conflicts-Reads _ _ _ (static_map-Reads se) ∙ or_false _ in
      ap2 (λ a b. a || b) here (statics_any ses)
    where
      or_false : (b : Bool) → (b || false) ≡ b
      or_false b = ground arith
