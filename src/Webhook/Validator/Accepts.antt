-- ===== src/Webhook/Validator/Accepts.antt =====
-- What the validating webhook lets through (internal/webhook/v2alpha1/whatapagent_webhook.go).
use whatap_operator.Prelude.{
  String, true, false, none, some, List, [], ◌∷◌, ◌==◌, ℕ, ◌+◌, ◌≡◌, ◌≢◌, ◌↔◌, arith, eq_iff, All,
  refl, Bool-cases, ◌⊎◌, Option-cases, inl, inr,
}
use whatap_operator.Webhook.Types.{TargetSpec, WhatapAgent}
use whatap_operator.Webhook.Validator.{
  ValidationObject, of_agent, of_other, validate_agent_configurations, validate_apm_target,
  validate_apm_targets_from, validate_apm_targets, validate_create, validate_update,
}

-- A target that is on has a name and a language, and a custom configuration names its ConfigMap.
pub record IsConfigured (t : TargetSpec) : Type 0 where
  pub named : t.name ≢ ""
  pub spoken : t.language ≢ ""
  pub referenced :
      (t.config.mode ≢ "custom")
      ⊎ ((ref : String) × (t.config.config_map_ref ≡ some ref) × (ref ≢ ""))

target_sound :
    (i : ℕ) (t : TargetSpec) → validate_apm_target i t ≡ none → t.enabled ≡ true → IsConfigured t
unfolding validate_apm_target
target_sound i t h on = record {
  named = λ e. ground (arith, eq_iff t.name "");
  spoken = λ e. ground (arith, eq_iff t.language "");
  referenced = elim (Bool-cases (t.config.mode == "custom")) [
    | inl c ↦ elim (Option-cases t.config.config_map_ref) [
      | inl n ↦ absurd (ground arith)
      | inr (ref, r) ↦ inr (ref, r, λ empty. ground (arith, eq_iff ref ""))
    ]
    | inr c ↦ inl (λ e. ground (arith, eq_iff t.config.mode "custom"))
  ];
}

targets_sound :
    (i : ℕ) (ts : List TargetSpec)
    → validate_apm_targets_from i ts ≡ none
    → All (λ t. (t.enabled ≡ false) ⊎ IsConfigured t) ts
unfolding validate_apm_targets_from
targets_sound i [] h = tt
targets_sound i (t ∷ ts) h = (
  elim (Bool-cases t.enabled) [
    | inl on ↦ inr (target_sound i t (ground arith) on)
    | inr off ↦ inl off
  ],
  targets_sound (i + 1) ts (ground arith),
)

-- The webhook accepts a WhatapAgent, on creation and on update alike, exactly if it is named
-- "whatap", and accepts no other kind of object.
pub validate_iff :
    (old object : ValidationObject)
    → ((validate_create object ≡ none)
        ↔ ((agent : WhatapAgent) × (object ≡ of_agent agent) × (agent.name ≡ "whatap")))
      × (validate_update old object ≡ validate_create object)
unfolding validate_create validate_update validate_agent_configurations
validate_iff old (of_agent agent) = (
  (
    (λ h. (agent, refl, ground (arith, eq_iff agent.name "whatap"))),
    λ (x, same, named). ground (arith, eq_iff agent.name "whatap"),
  ),
  refl,
)
validate_iff old (of_other kind) = (((λ h. cc), λ (x, same, named). cc), refl)

-- The check of the targets passes only where every target that is on is configured.
pub validate_apm_targets_sound :
    (agent : WhatapAgent)
    → validate_apm_targets agent ≡ none
    → All (λ t. (t.enabled ≡ false) ⊎ IsConfigured t) agent.instrumentation.targets
unfolding validate_apm_targets
validate_apm_targets_sound agent h = targets_sound 0 agent.instrumentation.targets h
