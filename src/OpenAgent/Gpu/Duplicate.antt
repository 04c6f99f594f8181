-- ===== src/OpenAgent/Gpu/Duplicate.antt =====
-- When the target for GPU monitoring is added (internal/controller/install_agents.go,
-- generateScrapeConfig).
use whatap_operator.Prelude.{
  String, Bool, true, some, List, [], ◌∷◌, ◌++◌, map, Dict, if◌then◌else◌, any, all, not, ◌&&◌,
  ◌||◌, ◌≡◌, ◌⊎◌, false, refl, ap, ◌∙◌, arith, Bool-cases, inl, inr, and_intro,
}
use whatap_operator.OpenAgent.Types.{
  OpenAgentTargetSpec, WhatapPodMonitor, WhatapServiceMonitor, WhatapStaticEndpoint, ScrapeSpec,
}
use whatap_operator.OpenAgent.Yaml.{object, to_ordered_yaml}
use whatap_operator.OpenAgent.Targets.{
  inline_targets, pod_monitor_target, service_monitor_target, configured_targets,
}
use whatap_operator.OpenAgent.Gpu.{
  agent_labels, gpu_target_map, add_gpu_target, conflicts, is_duplicate,
}
use whatap_operator.OpenAgent.Scrape.{scrape_config}
use whatap_operator.OpenAgent.Gpu.Labels.{distinct_keys}
use whatap_operator.OpenAgent.Gpu.Conflicts.{ap2, inline_any, monitors_any, statics_any}
use whatap_operator.OpenAgent.Gpu.RulesOut.{is_ruled_out, RulesOut, rules_out, is_ruled_out-of}

any_append :
    {A : Type 0} (p : A → Bool) (xs ys : List A) → any p (xs ++ ys) ≡ (any p xs || any p ys)
any_append p [] ys = refl
any_append p (x ∷ xs) ys = ground (arith, any_append p xs ys)

configured_conflicts :
    (labels : Dict String) (targets : List OpenAgentTargetSpec) (pods : List WhatapPodMonitor)
    (services : List WhatapServiceMonitor) (statics : List WhatapStaticEndpoint)
    → all (λ t. distinct_keys t.selector.match_labels) targets ≡ true
    → all (λ m. distinct_keys m.selector.match_labels) pods ≡ true
    → all (λ m. distinct_keys m.selector.match_labels) services ≡ true
    → is_duplicate labels (configured_targets targets (some pods) (some services) (some statics))
      ≡ is_ruled_out labels targets pods services statics
unfolding configured_targets is_duplicate pod_monitor_target service_monitor_target
configured_conflicts labels targets pods services statics h k l =
    any_append (conflicts labels) (inline_targets targets) _
    ∙ ap2 (λ a b. a || b) (inline_any labels targets h)
        (any_append (conflicts labels) (map pod_monitor_target pods) _
          ∙ ap2 (λ a b. a || b) (monitors_any labels "PodMonitor" pods k)
              (any_append (conflicts labels) (map service_monitor_target services) _
                ∙ ap2 (λ a b. a || b) (monitors_any labels "ServiceMonitor" services l)
                    (statics_any labels statics)))

-- Either GPU monitoring is enabled and no resource rules it out, and the configuration has the
-- target for GPU monitoring behind the others; or else it has the others alone. A resource that
-- rules it out is an enabled inline target, pod monitor, service monitor or static endpoint with the
-- name dcgm-exporter-auto, or one of the first three kinds whose labels are all the GPU agent's, one
-- of them identifying; the maps of labels have no key twice.
pub gpu_target_added :
    (spec : ScrapeSpec) (ns : String) (pods : List WhatapPodMonitor)
    (services : List WhatapServiceMonitor) (statics : List WhatapStaticEndpoint)
    → all (λ t. distinct_keys t.selector.match_labels) spec.targets ≡ true
    → all (λ m. distinct_keys m.selector.match_labels) pods ≡ true
    → all (λ m. distinct_keys m.selector.match_labels) services ≡ true
    → let result = (scrape_config spec ns (some pods) (some services) (some statics)).targets in
      let others = configured_targets spec.targets (some pods) (some services) (some statics) in
      let ruled_out = RulesOut (agent_labels spec) spec.targets pods services statics in
      ((result ≡ others ++ to_ordered_yaml (object (gpu_target_map ns spec)) ∷ [])
        × (spec.gpu_monitoring.enabled ≡ true)
        × (¬ ruled_out))
      ⊎ ((result ≡ others) × ((spec.gpu_monitoring.enabled ≡ false) ⊎ ruled_out))
unfolding scrape_config add_gpu_target
gpu_target_added spec ns pods services statics h k l =
    let labels = agent_labels spec in
    let others = configured_targets spec.targets (some pods) (some services) (some statics) in
    let added = others ++ to_ordered_yaml (object (gpu_target_map ns spec)) ∷ [] in
    let choose = λ (b : Bool). if b then added else others in
    let same = configured_conflicts labels spec.targets pods services statics h k l in
    elim (Bool-cases spec.gpu_monitoring.enabled) [
      | inr off ↦ inr (ap (λ b. choose (b && not (is_duplicate labels others))) off, inl off)
      | inl on ↦ elim (Bool-cases (is_ruled_out labels spec.targets pods services statics)) [
        | inl e ↦ inr (
          ap choose (and_false spec.gpu_monitoring.enabled _ (ap not (same ∙ e))),
          inr (rules_out labels spec.targets pods services statics h k l e),
        )
        | inr e ↦ inl (
          ap choose (and_intro on (ap not (same ∙ e))),
          on,
          λ r.
              let yes = is_ruled_out-of labels spec.targets pods services statics h k l r in
              absurd (ground (arith, e, yes)),
        )
      ]
    ]
  where
    and_false : (a b : Bool) → b ≡ false → (a && b) ≡ false
    and_false a b e = ground (arith, e)
