-- ===== src/OpenAgent/Gpu/RulesOut.antt =====
-- Which resources rule the target for GPU monitoring out
-- (internal/controller/install_agents.go, generateScrapeConfig).
use whatap_operator.Prelude.{
  String, Bool, true, List, Dict, any, all, ◌||◌, ◌==◌, ◌⊕◌, ◌≡◌, ◌↔◌, ◌⊎◌, refl, arith, Bool-cases,
  inl, inr, and_parts, any_of_mem, mem_of_any, all_of_mem, and_intro, eq_of_test, test_of_eq,
}
use whatap_operator.OpenAgent.Types.{
  OpenAgentTargetSpec, WhatapPodMonitor, WhatapServiceMonitor, WhatapStaticEndpoint,
}
use whatap_operator.OpenAgent.Targets.{monitor_name}
use whatap_operator.OpenAgent.Gpu.{check_duplicate, gpu_target_name}
use mathlib.Core.List.{Memᴰ}
use whatap_operator.OpenAgent.Gpu.Identity.{SelectsAgent, check_duplicate_iff}
use whatap_operator.OpenAgent.Gpu.Labels.{distinct_keys}
use whatap_operator.OpenAgent.Gpu.Conflicts.{target_conflicts, monitor_conflicts, static_conflicts}

-- Whether a resource rules the GPU target out.
abbrev pub is_ruled_out :
    Dict String
    → List OpenAgentTargetSpec
    → List WhatapPodMonitor
    → List WhatapServiceMonitor
    → List WhatapStaticEndpoint
    → Bool
is_ruled_out labels targets pods services statics =
    any (target_conflicts labels) targets
    || (any (monitor_conflicts labels) pods
        || (any (monitor_conflicts labels) services || any (static_conflicts labels) statics))

-- A resource that rules the GPU target out: it has the target's name, or its selector selects the
-- pods of the agent.
pub data RulesOut (labels : Dict String) (targets : List OpenAgentTargetSpec)
    (pods : List WhatapPodMonitor) (services : List WhatapServiceMonitor)
    (statics : List WhatapStaticEndpoint) : Type 0 where
  by_target :
      (t : OpenAgentTargetSpec)
      → Memᴰ t targets
      → t.enabled ≡ true
      → (t.target_name ≡ "dcgm-exporter-auto") ⊎ SelectsAgent labels t.selector.match_labels
      → RulesOut labels targets pods services statics
  by_pod_monitor :
      (m : WhatapPodMonitor)
      → Memᴰ m pods
      → (m.namespace ⊕ "/" ⊕ m.name ≡ "dcgm-exporter-auto")
        ⊎ SelectsAgent labels m.selector.match_labels
      → RulesOut labels targets pods services statics
  by_service_monitor :
      (m : WhatapServiceMonitor)
      → Memᴰ m services
      → (m.namespace ⊕ "/" ⊕ m.name ≡ "dcgm-exporter-auto")
        ⊎ SelectsAgent labels m.selector.match_labels
      → RulesOut labels targets pods services statics
  by_static_endpoint :
      (se : WhatapStaticEndpoint)
      → Memᴰ se statics
      → se.namespace ⊕ "/" ⊕ se.name ≡ "dcgm-exporter-auto"
      → RulesOut labels targets pods services statics

named_or_selecting :
    (labels : Dict String) (name other : String) (d : Dict String)
    → distinct_keys d ≡ true
    → ((name == other || check_duplicate labels d) ≡ true)
      ↔ ((name ≡ other) ⊎ SelectsAgent labels d)
named_or_selecting labels name other d h = (
  λ e. elim (Bool-cases (name == other)) [
    | inl n ↦ inl (eq_of_test name other n)
    | inr n ↦ inr ((check_duplicate_iff labels d h).0 (rw n at e))
  ],
  λ c. elim c [
    | inl n ↦ rw (test_of_eq name other n) refl
    | inr s ↦ let dup = (check_duplicate_iff labels d h).1 s in ground (arith, dup)
  ],
)

module _ (labels : Dict String) (targets : List OpenAgentTargetSpec) (pods : List WhatapPodMonitor)
    (services : List WhatapServiceMonitor) (statics : List WhatapStaticEndpoint)
    (h : all (λ t. distinct_keys t.selector.match_labels) targets ≡ true)
    (k : all (λ m. distinct_keys m.selector.match_labels) pods ≡ true)
    (l : all (λ m. distinct_keys m.selector.match_labels) services ≡ true) where
  pub rules_out :
      is_ruled_out labels targets pods services statics ≡ true
      → RulesOut labels targets pods services statics
  rules_out r = elim (Bool-cases (any (target_conflicts labels) targets)) [
    | inl e ↦
        let (t, m, c) = mem_of_any (target_conflicts labels) targets e in
        by_target t m (and_parts c).0 (
          (named_or_selecting labels t.target_name gpu_target_name t.selector.match_labels
              (all_of_mem _ targets t m h)).0
            (and_parts c).1)
    | inr e ↦ elim (Bool-cases (any (monitor_conflicts labels) pods)) [
      | inl f ↦
          let (m, p, c) = mem_of_any (monitor_conflicts labels) pods f in
          by_pod_monitor m p (
            (named_or_selecting labels (monitor_name m.namespace m.name) gpu_target_name
                m.selector.match_labels (all_of_mem _ pods m p k)).0
              c)
      | inr f ↦ elim (Bool-cases (any (monitor_conflicts labels) services)) [
        | inl g ↦
            let (m, p, c) = mem_of_any (monitor_conflicts labels) services g in
            by_service_monitor m p (
              (named_or_selecting labels (monitor_name m.namespace m.name) gpu_target_name
                  m.selector.match_labels (all_of_mem _ services m p l)).0
                c)
        | inr g ↦
            let rest : any (static_conflicts labels) statics ≡ true = rw (e, f, g) at r in
            let (se, m, c) = mem_of_any (static_conflicts labels) statics rest in
            by_static_endpoint se m (eq_of_test _ _ c)
      ]
    ]
  ]

  pub is_ruled_out-of :
      RulesOut labels targets pods services statics
      → is_ruled_out labels targets pods services statics ≡ true
  is_ruled_out-of (by_target t m on c) =
      let conflict : target_conflicts labels t ≡ true = and_intro on (
        (named_or_selecting labels t.target_name gpu_target_name t.selector.match_labels
            (all_of_mem _ targets t m h)).1
          c) in
      ground (arith, any_of_mem (target_conflicts labels) targets t m conflict)
  is_ruled_out-of (by_pod_monitor m p c) =
      let conflict =
        (named_or_selecting labels (monitor_name m.namespace m.name) gpu_target_name
            m.selector.match_labels (all_of_mem _ pods m p k)).1
          c in
      ground (arith, any_of_mem (monitor_conflicts labels) pods m p conflict)
  is_ruled_out-of (by_service_monitor m p c) =
      let conflict =
        (named_or_selecting labels (monitor_name m.namespace m.name) gpu_target_name
            m.selector.match_labels (all_of_mem _ services m p l)).1
          c in
      ground (arith, any_of_mem (monitor_conflicts labels) services m p conflict)
  is_ruled_out-of (by_static_endpoint se m c) =
      let conflict : static_conflicts labels se ≡ true = test_of_eq _ _ c in
      ground (arith, any_of_mem (static_conflicts labels) statics se m conflict)
