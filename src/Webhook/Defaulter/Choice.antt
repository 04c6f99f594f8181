-- ===== src/Webhook/Defaulter/Choice.antt =====
-- Which target is injected, and that a pod is injected once
-- (internal/webhook/v2alpha1/whatapagent_webhook.go).
use whatap_operator.Prelude.{
  String, true, false, Option, none, some, List, [], ◌∷◌, Dict, insert, lookup-insert, is_empty,
  ◌≡◌, refl, arith, ◌⊎◌, inl, inr, All, Bool-cases, Option-cases, ap, contains,
}
use whatap_operator.Webhook.Types.{EnvConfig, TargetSpec, InstrumentationSpec, WhatapAgent, Pod}
use whatap_operator.Webhook.Selector.Semantics.{
  Satisfies, requirements, matches_selector_iff, matches_namespace_selector_iff,
}
use whatap_operator.Webhook.Patch.{resolve_version}
use whatap_operator.Webhook.Defaulter.{
  AdmissionObject, of_pod, of_other, is_injected, target_matches, inject, inject_first, default_pod,
  default, injected_annotation, language_annotation, version_annotation,
}

-- When a target is for a pod: it is enabled, the pod's labels satisfy its pod selector, and the
-- pod's namespace can be read and satisfies its namespace selector.
pub record Applies (get_namespace : String → Option (Dict String)) (pod : Pod) (target : TargetSpec)
    : Type 0 where
  pub enabled : target.enabled ≡ true
  pub pod_labels :
      All
        (Satisfies pod.labels)
        (requirements target.pod_selector.match_labels target.pod_selector.match_expressions)
  pub namespace_labels : Dict String
  pub readable : get_namespace pod.namespace ≡ some namespace_labels
  pub named :
      (target.namespace_selector.match_names ≡ [])
      ⊎ (contains target.namespace_selector.match_names pod.namespace ≡ true)
  pub of_namespace : All (Satisfies namespace_labels) (
      requirements target.namespace_selector.match_labels
        target.namespace_selector.match_expressions)

-- An injected pod is marked as such.
is_injected-inject :
    (cfg : EnvConfig) (i : InstrumentationSpec) (pod : Pod) (t : TargetSpec)
    → is_injected (inject cfg i pod t) ≡ true
unfolding is_injected inject
is_injected-inject cfg i pod t =
    let marked = insert injected_annotation "true" pod.annotations in
    let spoken = insert language_annotation t.language marked in
    ground (
      arith,
      lookup-insert version_annotation injected_annotation (resolve_version t) spoken,
      lookup-insert language_annotation injected_annotation t.language marked,
      lookup-insert injected_annotation injected_annotation "true" pod.annotations,
    )

module _ (get_namespace : String → Option (Dict String)) (pod : Pod) where
  Applies-of_target_matches :
      (t : TargetSpec) → target_matches get_namespace pod t ≡ true → Applies get_namespace pod t
  unfolding target_matches
  Applies-of_target_matches t h = elim (Option-cases (get_namespace pod.namespace)) [
    | inl e ↦ absurd (ground arith)
    | inr (labels, e) ↦
        let by_namespace =
          (matches_namespace_selector_iff pod.namespace labels t.namespace_selector).0
            (ground arith) in
        record {
          enabled = ground arith;
          pod_labels = (matches_selector_iff pod.labels t.pod_selector).0 (ground arith);
          namespace_labels = labels;
          readable = e;
          named = by_namespace.0;
          of_namespace = by_namespace.1;
        }
  ]

  target_matches-of_Applies :
      (t : TargetSpec) → Applies get_namespace pod t → target_matches get_namespace pod t ≡ true
  unfolding target_matches
  target_matches-of_Applies t a =
      rw (a.enabled, (matches_selector_iff pod.labels t.pod_selector).1 a.pod_labels)
        (rw (a.readable, target_matches)
          ((matches_namespace_selector_iff pod.namespace a.namespace_labels t.namespace_selector).1
            (a.named, a.of_namespace)))

  -- The targets before the chosen one do not apply.
  pub data FirstFor : List TargetSpec → TargetSpec → Type 0 where
    here :
        {t : TargetSpec} {ts : List TargetSpec} → Applies get_namespace pod t → FirstFor (t ∷ ts) t
    later :
        {s t : TargetSpec} {ts : List TargetSpec}
        → ¬ Applies get_namespace pod s
        → FirstFor ts t
        → FirstFor (s ∷ ts) t

module _ (cfg : EnvConfig) (get_namespace : String → Option (Dict String)) (pod : Pod) where
  inject_first-of_FirstFor :
      (i : InstrumentationSpec) (ts : List TargetSpec) {t : TargetSpec}
      → FirstFor get_namespace pod ts t
      → inject_first cfg i get_namespace ts pod ≡ inject cfg i pod t
  unfolding inject_first
  inject_first-of_FirstFor i [] f = elim f [ ]
  inject_first-of_FirstFor i (t ∷ ts) (here a) =
      rw (target_matches-of_Applies get_namespace pod t a)
  inject_first-of_FirstFor i (s ∷ ts) (later n f) =
      elim (Bool-cases (target_matches get_namespace pod s)) [
        | inl e ↦ absurd (n (Applies-of_target_matches get_namespace pod s e))
        | inr e ↦ rw e (inject_first-of_FirstFor i ts f)
      ]

  inject_first-of_none :
      (i : InstrumentationSpec) (ts : List TargetSpec)
      → All (λ t. ¬ Applies get_namespace pod t) ts
      → inject_first cfg i get_namespace ts pod ≡ pod
  unfolding inject_first
  inject_first-of_none i [] n = refl
  inject_first-of_none i (t ∷ ts) n = elim (Bool-cases (target_matches get_namespace pod t)) [
    | inl e ↦ absurd (n.0 (Applies-of_target_matches get_namespace pod t e))
    | inr e ↦ rw e (inject_first-of_none i ts n.1)
  ]

  FirstFor-nonempty :
      (ts : List TargetSpec) {t : TargetSpec}
      → FirstFor get_namespace pod ts t
      → is_empty ts ≡ false
  FirstFor-nonempty [] f = elim f [ ]
  FirstFor-nonempty (t ∷ ts) (here a) = refl
  FirstFor-nonempty (s ∷ ts) (later n f) = refl

  -- Where instrumentation is on and the pod is not injected yet, the pod becomes the injection of
  -- the first target that applies to it, and no other target has an effect.
  pub default_pod_injects :
      (agent : WhatapAgent) (t : TargetSpec)
      → agent.instrumentation.enabled ≡ true
      → is_injected pod ≡ false
      → FirstFor get_namespace pod agent.instrumentation.targets t
      → default_pod cfg (some agent) get_namespace pod ≡ inject cfg agent.instrumentation pod t
  unfolding default_pod
  default_pod_injects agent t on fresh f = ground (
    arith,
    FirstFor-nonempty agent.instrumentation.targets f,
    inject_first-of_FirstFor agent.instrumentation agent.instrumentation.targets f,
  )

  -- The pod stays as it is where there is no resource, instrumentation is off, the pod is injected
  -- already, or no target applies to it.
  pub default_pod_skips :
      (agent : Option WhatapAgent)
      → ((a : WhatapAgent)
          → agent ≡ some a
          → (a.instrumentation.enabled ≡ false)
            ⊎ (is_injected pod ≡ true)
            ⊎ All (λ t. ¬ Applies get_namespace pod t) a.instrumentation.targets)
      → default_pod cfg agent get_namespace pod ≡ pod
  unfolding default_pod
  default_pod_skips none h = refl
  default_pod_skips (some a) h = elim (h a refl) [
    | inl off ↦ rw off
    | inr (inl done) ↦ ground arith
    | inr (inr nowhere) ↦
        ground (arith, inject_first-of_none a.instrumentation a.instrumentation.targets nowhere)
  ]

  inject_first_cases :
      (i : InstrumentationSpec) (ts : List TargetSpec)
      → (inject_first cfg i get_namespace ts pod ≡ pod)
        ⊎ (is_injected (inject_first cfg i get_namespace ts pod) ≡ true)
  unfolding inject_first
  inject_first_cases i [] = inl refl
  inject_first_cases i (t ∷ ts) = elim (Bool-cases (target_matches get_namespace pod t)) [
    | inl e ↦ rw e (inr (is_injected-inject cfg i pod t))
    | inr e ↦ rw e (inject_first_cases i ts)
  ]

  default_pod_cases :
      (agent : Option WhatapAgent)
      → (default_pod cfg agent get_namespace pod ≡ pod)
        ⊎ (is_injected (default_pod cfg agent get_namespace pod) ≡ true)
  unfolding default_pod
  default_pod_cases none = inl refl
  default_pod_cases (some a) =
      ground (arith, inject_first_cases a.instrumentation a.instrumentation.targets)

default_pod_of_injected :
    (cfg : EnvConfig) (get_namespace : String → Option (Dict String)) (agent : Option WhatapAgent)
    (pod : Pod)
    → is_injected pod ≡ true
    → default_pod cfg agent get_namespace pod ≡ pod
default_pod_of_injected cfg get_namespace agent pod h =
    default_pod_skips cfg get_namespace pod agent (λ a e. inr (inl h))

default_pod_twice :
    (cfg : EnvConfig) (get_namespace : String → Option (Dict String)) (agent : Option WhatapAgent)
    (pod : Pod)
    → default_pod cfg agent get_namespace (default_pod cfg agent get_namespace pod)
      ≡ default_pod cfg agent get_namespace pod
default_pod_twice cfg get_namespace agent pod =
    elim (default_pod_cases cfg get_namespace pod agent) [
      | inl same ↦ ap (default_pod cfg agent get_namespace) same
      | inr done ↦ default_pod_of_injected cfg get_namespace agent _ done
    ]

-- A second call of the webhook changes nothing: whatever object comes in, the API server may call
-- it again and the pod is not injected twice.
pub default_idempotent :
    (cfg : EnvConfig) (get_namespace : String → Option (Dict String)) (agent : Option WhatapAgent)
    (object : AdmissionObject)
    → default cfg agent get_namespace (default cfg agent get_namespace object)
      ≡ default cfg agent get_namespace object
unfolding default
default_idempotent cfg get_namespace agent (of_pod pod) =
    ap of_pod (default_pod_twice cfg get_namespace agent pod)
default_idempotent cfg get_namespace agent (of_other kind) = refl
