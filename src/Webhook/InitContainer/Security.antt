-- ===== src/Webhook/InitContainer/Security.antt =====
-- The security context of the init container (internal/webhook/v2alpha1/process_deployments.go).
use whatap_operator.Prelude.{true, false, some, ◌≡◌, ◌≢◌, arith, ◌⊎◌}
use whatap_operator.Webhook.Types.{TargetSpec, InstrumentationSpec, InitContainerSecuritySpec}
use whatap_operator.Webhook.InitContainer.{init_security_context, sets_any}

-- The security context of the init container always sets a field, and it allows root explicitly
-- only where the target or the instrumentation asks for that.
pub init_security_context_safe :
    (target : TargetSpec) (instrumentation : InstrumentationSpec)
    → (sets_any (init_security_context target instrumentation) ≡ true)
      × (((init_security_context target instrumentation).run_as_non_root ≢ some false)
          ⊎ ((s : InitContainerSecuritySpec) × (target.init_container_security ≡ some s)
              × (s.run_as_non_root ≡ some false))
          ⊎ ((s : InitContainerSecuritySpec) × (instrumentation.init_container_security ≡ some s)
              × (s.run_as_non_root ≡ some false)))
unfolding init_security_context
init_security_context_safe target instrumentation = (ground arith, ground arith)
