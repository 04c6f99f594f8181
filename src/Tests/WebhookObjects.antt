-- ===== src/Tests/WebhookObjects.antt =====
-- The objects of the admission webhooks (internal/controller/whatapagent_controller.go) on a sample.
use whatap_operator.Prelude.{
  none, some, List, [], ◌∷◌, map, insert, ◌≡◌, refl, inl, inr, arith, eq_iff,
}
use whatap_operator.Controller.WebhookObjects.{
  Reconciler, WebhookService, MutatingWebhook, new_webhook, wanted_webhooks, update_webhooks,
  update_webhook_service,
}
use whatap_operator.Controller.WebhookObjects.Settles.{
  kept, served_at, nowhere, first, later, update_webhooks_settles,
}

abbrev reconciler : Reconciler
reconciler = record {
  default_namespace = "whatap-monitoring";
  webhook_ca_bundle = "bundle";
  ca_key = "key";
  server_cert = "cert";
  server_key = "server key";
}

-- A user has given the webhook for pods a timeout; another webhook stands before it.
abbrev pods_with_timeout : MutatingWebhook
pods_with_timeout = record (new_webhook "mpod.kb.io") {
  untouched = record (new_webhook "").untouched { timeout_seconds = some 5 };
}

abbrev present : List MutatingWebhook
present = new_webhook "other.kb.io" ∷ pods_with_timeout ∷ []

update_webhooks_settles_example :
    (update_webhooks reconciler none present ≡ inr (wanted_webhooks reconciler present))
    × (map (λ w. w.name) (wanted_webhooks reconciler present)
        ≡ "mpod.kb.io" ∷ "whatapagent.kb.io" ∷ [])
    × (map (λ w. w.client_config) (wanted_webhooks reconciler present)
        ≡ served_at reconciler "/whatap-injection--v1-pod"
          ∷ served_at reconciler "/whatap-validation--v2alpha1-whatapagent"
          ∷ [])
    × (map (λ w. w.untouched) (wanted_webhooks reconciler present)
        ≡ pods_with_timeout.untouched ∷ kept none ∷ [])
    × (update_webhooks reconciler none (wanted_webhooks reconciler present)
        ≡ inr (wanted_webhooks reconciler present))
    × (update_webhooks reconciler (some "owned by another") present ≡ inl "owned by another")
update_webhooks_settles_example =
    update_webhooks_settles reconciler present "owned by another" (some pods_with_timeout) none
      (later (new_webhook "other.kb.io") _ _
        (λ e. ground (arith, eq_iff "other.kb.io" "mpod.kb.io")) (first pods_with_timeout [] refl))
      (later (new_webhook "other.kb.io") _ _
        (λ e. ground (arith, eq_iff "other.kb.io" "whatapagent.kb.io"))
        (later pods_with_timeout [] none
          (λ e. ground (arith, eq_iff "mpod.kb.io" "whatapagent.kb.io")) nowhere))

abbrev user_service : WebhookService
user_service = record {
  labels = ("team", "infra") ∷ [];
  selector = [];
  port = 8443;
  target_port = 8443;
}

abbrev wanted_service : WebhookService
wanted_service = record {
  labels =
      ("team", "infra")
      ∷ ("app.kubernetes.io/name", "whatap-operator")
      ∷ ("app.kubernetes.io/managed-by", "whatap-operator")
      ∷ [];
  selector = ("app.kubernetes.io/name", "whatap-operator") ∷ [];
  port = 443;
  target_port = 9443;
}

-- A user's labels stay; what the operator sets is set.
service_set : update_webhook_service none user_service ≡ inr wanted_service
unfolding update_webhook_service insert
service_set = refl
