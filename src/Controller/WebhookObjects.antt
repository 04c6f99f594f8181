-- ===== src/Controller/WebhookObjects.antt =====
-- What Reconcile writes for the admission webhooks (internal/controller/whatapagent_controller.go:
-- ensureWebhookTLSSecret, ensureWebhookService and ensureMutatingWebhookConfiguration): the callbacks
-- of CreateOrUpdate, on the object that is there, with no fields set where there is none.
--
-- SetControllerReference is a parameter: the error that it returns, if any. CreateOrUpdate
-- writes nothing then. Certificates are texts.
pub mod Settles
use whatap_operator.Prelude.{
  ℕ, String, Bool, true, false, Option, none, some, List, [], ◌∷◌, Dict, if◌then◌else◌, insert,
  ◌==◌, ◌⊎◌, inl, inr,
}

-- The fields of the reconciler that main gives to it.
pub record Reconciler : Type 0 where
  pub default_namespace : String
  pub webhook_ca_bundle : String
  pub ca_key : String
  pub server_cert : String
  pub server_key : String

unfoldable pub update_tls_secret : Reconciler → Option String → Dict String → String ⊎ Dict String
update_tls_secret r (some err) old = inl err
update_tls_secret r none old = inr (
    ("cert.pem", r.webhook_ca_bundle)
    ∷ ("key.pem", r.ca_key)
    ∷ ("tls.crt", r.server_cert)
    ∷ ("tls.key", r.server_key)
    ∷ [])

-- The labels, the selector, and the port with its target.
pub record WebhookService : Type 0 where
  pub labels : Dict String
  pub selector : Dict String
  pub port : ℕ
  pub target_port : ℕ

unfoldable pub update_webhook_service : Option String → WebhookService → String ⊎ WebhookService
update_webhook_service (some err) svc = inl err
update_webhook_service none svc = inr (record {
  labels =
      insert "app.kubernetes.io/managed-by" "whatap-operator"
        (insert "app.kubernetes.io/name" "whatap-operator" svc.labels);
  selector = ("app.kubernetes.io/name", "whatap-operator") ∷ [];
  port = 443;
  target_port = 9443;
})

-- The service of a webhook, by name, namespace and path, and its CA bundle.
pub record ClientConfig : Type 0 where
  pub service_name : String
  pub service_namespace : String
  pub path : String
  pub ca_bundle : String

pub record Rule : Type 0 where
  pub operations : List String
  pub api_groups : List String
  pub api_versions : List String
  pub resources : List String

-- The fields that the operator leaves alone.
pub record Untouched : Type 0 where
  pub match_policy : Option String
  pub namespace_selector : Option String
  pub object_selector : Option String
  pub timeout_seconds : Option ℕ
  pub reinvocation_policy : Option String
  pub match_conditions : List String

pub record MutatingWebhook : Type 0 where
  pub name : String
  pub client_config : Option ClientConfig
  pub rules : List Rule
  pub failure_policy : Option String
  pub admission_review_versions : List String
  pub side_effects : Option String
  pub untouched : Untouched

abbrev pub new_webhook : String → MutatingWebhook
new_webhook name = record {
  name = name;
  client_config = none;
  rules = [];
  failure_policy = none;
  admission_review_versions = [];
  side_effects = none;
  untouched = record {
    match_policy = none;
    namespace_selector = none;
    object_selector = none;
    timeout_seconds = none;
    reinvocation_policy = none;
    match_conditions = [];
  };
}

unfoldable pub find_webhook : String → List MutatingWebhook → MutatingWebhook
find_webhook name [] = new_webhook name
find_webhook name (wh ∷ whs) = if wh.name == name then wh else find_webhook name whs

-- What the operator sets in each of its two webhooks.
unfoldable pub set_webhook : Reconciler → String → Rule → MutatingWebhook → MutatingWebhook
set_webhook r path rule wh = record wh {
  client_config = some (record {
    service_name = "whatap-admission-controller";
    service_namespace = r.default_namespace;
    path = path;
    ca_bundle = r.webhook_ca_bundle;
  });
  rules = rule ∷ [];
  failure_policy = some "Ignore";
  admission_review_versions = "v1" ∷ [];
  side_effects = some "None";
}

abbrev pub pod_rule : Rule
pod_rule = record {
  operations = "CREATE" ∷ [];
  api_groups = "" ∷ [];
  api_versions = "v1" ∷ [];
  resources = "pods" ∷ [];
}

abbrev pub agent_rule : Rule
agent_rule = record {
  operations = "CREATE" ∷ "UPDATE" ∷ [];
  api_groups = "monitoring.whatap.com" ∷ [];
  api_versions = "v2alpha1" ∷ [];
  resources = "whatapagents" ∷ [];
}

-- The webhooks in their fixed order, each made from the present one of its name.
unfoldable pub wanted_webhooks : Reconciler → List MutatingWebhook → List MutatingWebhook
wanted_webhooks r present =
    set_webhook r "/whatap-injection--v1-pod" pod_rule (find_webhook "mpod.kb.io" present)
    ∷ set_webhook r "/whatap-validation--v2alpha1-whatapagent" agent_rule
        (find_webhook "whatapagent.kb.io" present)
    ∷ []

unfoldable pub update_webhooks :
    Reconciler → Option String → List MutatingWebhook → String ⊎ List MutatingWebhook
update_webhooks r (some err) present = inl err
update_webhooks r none present = inr (wanted_webhooks r present)
