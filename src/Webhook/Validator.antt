-- ===== src/Webhook/Validator.antt =====
-- WhatapAgentCustomValidator of internal/webhook/v2alpha1/whatapagent_webhook.go, with the checks
-- that it calls and the two that are present but commented out at the call.
pub mod Accepts
use whatap_operator.Prelude.{
  String, Bool, true, false, Option, none, some, List, [], ◌∷◌, if◌then◌else◌, ◌==◌, ℕ, zero, suc,
  ◌+◌,
}
use whatap_operator.Webhook.Types.{TargetSpec, WhatapAgent}

-- What comes in, and the errors that go out.
pub data ValidationObject : Type 0 where
  of_agent : WhatapAgent → ValidationObject
  of_other : String → ValidationObject

pub data ValidationError : Type 0 where
  not_an_agent : ValidationError
  configuration_not_valid : ValidationError
  license_required host_required port_required : ValidationError
  name_required : ℕ → ValidationError
  language_required : ℕ → ValidationError
  config_map_ref_required : ℕ → ValidationError
  config_map_ref_name_required : ℕ → ValidationError

-- `error`: nil is `none`.
unfoldable pub validate_agent_configurations : WhatapAgent → Option ValidationError
validate_agent_configurations agent =
    if agent.name == "whatap" then none else some configuration_not_valid

unfoldable pub validate_required_fields : WhatapAgent → Option ValidationError
validate_required_fields agent =
    if agent.license == ""
    then some license_required
    else if agent.host == ""
    then some host_required
    else if agent.port == ""
    then some port_required
    else none

-- The checks of one target, at its index.
unfoldable pub validate_apm_target : ℕ → TargetSpec → Option ValidationError
validate_apm_target i target =
    if target.enabled
    then (if target.name == ""
        then some (name_required i)
        else if target.language == ""
        then some (language_required i)
        else if target.config.mode == "custom"
        then elim target.config.config_map_ref [
          | none ↦ some (config_map_ref_required i)
          | some ref ↦ if ref == "" then some (config_map_ref_name_required i) else none
        ]
        else none)
    else none

unfoldable pub validate_apm_targets_from : ℕ → List TargetSpec → Option ValidationError
validate_apm_targets_from i [] = none
validate_apm_targets_from i (target ∷ targets) =
    let rest = validate_apm_targets_from (i + 1) targets in
    elim (validate_apm_target i target) [ some e ↦ some e | none ↦ rest ]

unfoldable pub validate_apm_targets : WhatapAgent → Option ValidationError
unfolding validate_apm_targets_from
validate_apm_targets agent = validate_apm_targets_from 0 agent.instrumentation.targets

unfoldable pub validate_create : ValidationObject → Option ValidationError
unfolding validate_agent_configurations
validate_create (of_agent agent) = validate_agent_configurations agent
validate_create (of_other kind) = some not_an_agent

unfoldable pub validate_update : ValidationObject → ValidationObject → Option ValidationError
unfolding validate_agent_configurations
validate_update old (of_agent agent) = validate_agent_configurations agent
validate_update old (of_other kind) = some not_an_agent

unfoldable pub validate_delete : ValidationObject → Option ValidationError
validate_delete (of_agent agent) = none
validate_delete (of_other kind) = some not_an_agent
