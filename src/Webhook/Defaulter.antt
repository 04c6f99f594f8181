-- ===== src/Webhook/Defaulter.antt =====
-- WhatapAgentCustomDefaulter.Default of internal/webhook/v2alpha1/whatapagent_webhook.go: the
-- mutating webhook for pods. The API server's answers are parameters: the WhatapAgent resource
-- "whatap", if it can be read, and the labels of a namespace, if it can be read.
pub mod Choice
use whatap_operator.Prelude.{
  String, Bool, true, false, Option, none, some, List, [], ◌∷◌, if◌then◌else◌, ◌==◌, ◌&&◌, Dict,
  lookup, insert, is_empty, not,
}
use whatap_operator.Webhook.Types.{
  EnvConfig, TargetSpec, InstrumentationSpec, WhatapAgent, PodSpec, Pod,
}
use whatap_operator.Webhook.Selector.{matches_selector, matches_namespace_selector}
use whatap_operator.Webhook.Patch.{resolve_version, patch_pod_template_spec}

abbrev pub injected_annotation : String
injected_annotation = "whatap-apm-injected"

abbrev pub language_annotation : String
language_annotation = "whatap-apm-language"

abbrev pub version_annotation : String
version_annotation = "whatap-apm-version"

-- What an admission request may carry.
pub data AdmissionObject : Type 0 where
  of_pod : Pod → AdmissionObject
  of_other : String → AdmissionObject

unfoldable pub is_injected : Pod → Bool
is_injected pod = elim (lookup injected_annotation pod.annotations) [
  | none ↦ false
  | some v ↦ v == "true"
]

-- The tests of one round of the loop over the targets, in their order.
unfoldable pub target_matches : (String → Option (Dict String)) → Pod → TargetSpec → Bool
target_matches get_namespace pod target =
    if target.enabled
    then (if matches_selector pod.labels target.pod_selector
        then elim (get_namespace pod.namespace) [
          | none ↦ false
          | some labels ↦ matches_namespace_selector pod.namespace labels target.namespace_selector
        ]
        else false)
    else false

-- The injection of the target that matches.
unfoldable pub inject : EnvConfig → InstrumentationSpec → Pod → TargetSpec → Pod
inject cfg instrumentation pod target = record pod {
  annotations = insert version_annotation (resolve_version target) (
      insert language_annotation target.language
        (insert injected_annotation "true" pod.annotations));
  spec = patch_pod_template_spec cfg instrumentation target pod.spec;
}

-- The loop: the first target that matches is injected.
unfoldable pub inject_first :
    EnvConfig → InstrumentationSpec → (String → Option (Dict String)) → List TargetSpec → Pod → Pod
inject_first cfg instrumentation get_namespace [] pod = pod
inject_first cfg instrumentation get_namespace (target ∷ targets) pod =
    let rest = inject_first cfg instrumentation get_namespace targets pod in
    if target_matches get_namespace pod target then inject cfg instrumentation pod target else rest

unfoldable pub default_pod :
    EnvConfig → Option WhatapAgent → (String → Option (Dict String)) → Pod → Pod
default_pod cfg none get_namespace pod = pod
default_pod cfg (some agent) get_namespace pod =
    if agent.instrumentation.enabled
    then (if is_empty agent.instrumentation.targets
        then pod
        else if is_injected pod
        then pod
        else inject_first cfg agent.instrumentation get_namespace agent.instrumentation.targets pod)
    else pod

unfoldable pub default :
    EnvConfig
    → Option WhatapAgent
    → (String → Option (Dict String))
    → AdmissionObject
    → AdmissionObject
default cfg agent get_namespace (of_pod pod) = of_pod (default_pod cfg agent get_namespace pod)
default cfg agent get_namespace (of_other kind) = of_other kind
