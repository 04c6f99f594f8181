-- ===== src/Tests/Admission.antt =====
-- The webhooks (internal/webhook/v2alpha1) on the sample pod.
use whatap_operator.Prelude.{
  true, false, none, some, [], ◌≡◌, ◌↔◌, ◌⊎◌, inr, refl, All, contains, lookup,
}
use whatap_operator.Webhook.Types.{WhatapAgent}
use whatap_operator.Webhook.Selector.{
  has_label, matches_label_expression, matches_not_in_operator, has_labels,
  matches_label_expressions, matches_selector, matches_namespace_selector,
}
use whatap_operator.Webhook.Selector.Semantics.{
  Satisfies, requirements, matches_selector_iff, matches_namespace_selector_iff,
}
use whatap_operator.Webhook.Patch.{volume_exists, patch_pod_template_spec}
use whatap_operator.Webhook.Patch.Volumes.{IsValidPod, patch_pod_template_spec-IsValidPod}
use whatap_operator.Webhook.Defaulter.{of_pod, is_injected, inject, default_pod, default}
use whatap_operator.Webhook.Defaulter.Choice.{
  FirstFor, here, default_pod_injects, default_idempotent,
}
use whatap_operator.Webhook.Validator.{
  of_agent, of_other, validate_create, validate_update, validate_apm_targets, validate_apm_target,
}
use whatap_operator.Webhook.Validator.Accepts.{validate_iff}
use whatap_operator.Tests.Samples.{cfg, target, instrumentation, agent, pod_spec, pod, namespaces}

matches_selector_iff_example :
    (matches_selector pod.labels target.pod_selector ≡ true)
    ↔ All
        (Satisfies pod.labels)
        (requirements target.pod_selector.match_labels target.pod_selector.match_expressions)
matches_selector_iff_example = matches_selector_iff pod.labels target.pod_selector

matches_namespace_selector_iff_example :
    (matches_namespace_selector "shop" [] target.namespace_selector ≡ true) ↔ (
      ((target.namespace_selector.match_names ≡ [])
        ⊎ (contains target.namespace_selector.match_names "shop" ≡ true))
      × All (Satisfies []) (
          requirements target.namespace_selector.match_labels
            target.namespace_selector.match_expressions))
matches_namespace_selector_iff_example =
    matches_namespace_selector_iff "shop" [] target.namespace_selector

pod_spec-IsValidPod : IsValidPod pod_spec
unfolding volume_exists
pod_spec-IsValidPod = record { unique = (refl, tt); mounted = ((refl, tt), tt); init_mounted = tt }

patch_pod_template_spec-IsValidPod_example :
    IsValidPod (patch_pod_template_spec cfg instrumentation target pod_spec)
patch_pod_template_spec-IsValidPod_example =
    patch_pod_template_spec-IsValidPod cfg instrumentation target pod_spec pod_spec-IsValidPod

labels_match : matches_selector pod.labels target.pod_selector ≡ true
unfolding matches_selector has_labels has_label matches_label_expressions matches_label_expression
    matches_not_in_operator lookup
labels_match = refl

pod_fresh : is_injected pod ≡ false
unfolding is_injected lookup
pod_fresh = refl

sample_applies : FirstFor namespaces pod agent.instrumentation.targets target
sample_applies = here (record {
  enabled = refl;
  pod_labels = (matches_selector_iff pod.labels target.pod_selector).0 labels_match;
  namespace_labels = [];
  readable = refl;
  named = inr refl;
  of_namespace = tt;
})

default_pod_injects_example :
    default_pod cfg (some agent) namespaces pod ≡ inject cfg agent.instrumentation pod target
default_pod_injects_example =
    default_pod_injects cfg namespaces pod agent target refl pod_fresh sample_applies

default_idempotent_example :
    default cfg (some agent) namespaces (default cfg (some agent) namespaces (of_pod pod))
    ≡ default cfg (some agent) namespaces (of_pod pod)
default_idempotent_example = default_idempotent cfg namespaces (some agent) (of_pod pod)

validate_iff_example :
    ((validate_create (of_agent agent) ≡ none)
      ↔ ((a : WhatapAgent) × (of_agent agent ≡ of_agent a) × (a.name ≡ "whatap")))
    × (validate_update (of_other "Pod") (of_agent agent) ≡ validate_create (of_agent agent))
validate_iff_example = validate_iff (of_other "Pod") (of_agent agent)

targets_pass : validate_apm_targets agent ≡ none
unfolding validate_apm_targets validate_apm_target
targets_pass = refl
