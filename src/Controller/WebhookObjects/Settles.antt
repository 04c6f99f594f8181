-- ===== src/Controller/WebhookObjects/Settles.antt =====
-- That the update of the webhook configuration settles and keeps what it does not manage
-- (internal/controller/whatapagent_controller.go: ensureMutatingWebhookConfiguration).
use whatap_operator.Prelude.{
  String, true, false, Option, none, some, ◌≢◌, test_of_eq, test_of_ne, List, [], ◌∷◌, map, ◌==◌,
  ◌≡◌, refl, ap, ◌∙◌, eq_of_test, Bool-cases, inl, inr,
}
use whatap_operator.Controller.WebhookObjects.{
  Reconciler, MutatingWebhook, Untouched, ClientConfig, pod_rule, agent_rule, find_webhook,
  set_webhook, update_webhooks, wanted_webhooks,
}

-- Two lists of two elements with the same elements.
pair_of {ℓ} : {A : Type ℓ} → {a b c d : A} → a ≡ b → c ≡ d → (a ∷ c ∷ []) ≡ (b ∷ d ∷ [])
pair_of {a} {b} {c} {d} p q = ap (λ x. x ∷ c ∷ []) p ∙ ap (λ y. b ∷ y ∷ []) q

name-find_webhook :
    (name : String) (whs : List MutatingWebhook) → (find_webhook name whs).name ≡ name
unfolding find_webhook
name-find_webhook name [] = refl
name-find_webhook name (wh ∷ whs) = elim (Bool-cases (wh.name == name)) [
  | inl e ↦ rw e (eq_of_test wh.name name e)
  | inr e ↦ rw e (name-find_webhook name whs)
]

find_webhook-here :
    (name : String) (wh : MutatingWebhook) (whs : List MutatingWebhook)
    → (wh.name == name) ≡ true
    → find_webhook name (wh ∷ whs) ≡ wh
unfolding find_webhook
find_webhook-here name wh whs e = rw e refl

find_webhook-skip :
    (name : String) (wh : MutatingWebhook) (whs : List MutatingWebhook)
    → (wh.name == name) ≡ false
    → find_webhook name (wh ∷ whs) ≡ find_webhook name whs
unfolding find_webhook
find_webhook-skip name wh whs e = rw e refl

wanted_webhooks-again :
    (r : Reconciler) (pods agents : MutatingWebhook)
    → pods.name ≡ "mpod.kb.io"
    → agents.name ≡ "whatapagent.kb.io"
    → let written =
        set_webhook r "/whatap-injection--v1-pod" pod_rule pods
        ∷ set_webhook r "/whatap-validation--v2alpha1-whatapagent" agent_rule agents
        ∷ [] in
      wanted_webhooks r written ≡ written
unfolding wanted_webhooks set_webhook
wanted_webhooks-again r pods agents p a =
    pair_of
      (ap (set_webhook r "/whatap-injection--v1-pod" pod_rule)
        (find_webhook-here "mpod.kb.io" _ _ (ap (λ n. n == "mpod.kb.io") p)))
      (ap (set_webhook r "/whatap-validation--v2alpha1-whatapagent" agent_rule) (
        find_webhook-skip "whatapagent.kb.io" _ _ (ap (λ n. n == "whatapagent.kb.io") p)
        ∙ find_webhook-here "whatapagent.kb.io" _ _ (ap (λ n. n == "whatapagent.kb.io") a)))

-- The first of the webhooks that has a name, if there is one.
pub data FirstNamed (name : String) : List MutatingWebhook → Option MutatingWebhook → Type 0 where
  nowhere : FirstNamed name [] none
  first :
      (wh : MutatingWebhook) (whs : List MutatingWebhook)
      → wh.name ≡ name
      → FirstNamed name (wh ∷ whs) (some wh)
  later :
      (wh : MutatingWebhook) (whs : List MutatingWebhook) (found : Option MutatingWebhook)
      → wh.name ≢ name
      → FirstNamed name whs found
      → FirstNamed name (wh ∷ whs) found

-- The fields that the operator leaves alone, all unset where there is no webhook.
abbrev pub kept : Option MutatingWebhook → Untouched
kept (some wh) = wh.untouched
kept none = record {
  match_policy = none;
  namespace_selector = none;
  object_selector = none;
  timeout_seconds = none;
  reinvocation_policy = none;
  match_conditions = [];
}

-- The operator's service in its namespace.
abbrev pub served_at : Reconciler → String → Option ClientConfig
served_at r path = some (record {
  service_name = "whatap-admission-controller";
  service_namespace = r.default_namespace;
  path = path;
  ca_bundle = r.webhook_ca_bundle;
})

untouched-find_webhook :
    (name : String) (whs : List MutatingWebhook) (found : Option MutatingWebhook)
    → FirstNamed name whs found
    → (find_webhook name whs).untouched ≡ kept found
unfolding find_webhook
untouched-find_webhook name _ _ nowhere = refl
untouched-find_webhook name _ _ (first wh whs e) = rw (test_of_eq wh.name name e) refl
untouched-find_webhook name _ _ (later wh whs found n r) =
    rw (test_of_ne wh.name name n) (untouched-find_webhook name whs found r)

-- Whatever webhooks the configuration has, where `pods` and `agents` are the first of them, if any,
-- that have the names of the operator's two: an update writes exactly these two, in a fixed order,
-- each served by the operator's service in its namespace at a path of its own, and with the fields
-- that the operator leaves alone as in `pods` and `agents`, or unset; a second update finds nothing
-- to change; and where the owner reference cannot be set, nothing is written.
pub update_webhooks_settles :
    (r : Reconciler) (present : List MutatingWebhook) (err : String)
    (pods agents : Option MutatingWebhook)
    → FirstNamed "mpod.kb.io" present pods
    → FirstNamed "whatapagent.kb.io" present agents
    → let written = wanted_webhooks r present in
      (update_webhooks r none present ≡ inr written)
      × (map (λ w. w.name) written ≡ "mpod.kb.io" ∷ "whatapagent.kb.io" ∷ [])
      × (map (λ w. w.client_config) written
          ≡ served_at r "/whatap-injection--v1-pod"
            ∷ served_at r "/whatap-validation--v2alpha1-whatapagent"
            ∷ [])
      × (map (λ w. w.untouched) written ≡ kept pods ∷ kept agents ∷ [])
      × (update_webhooks r none written ≡ inr written)
      × (update_webhooks r (some err) present ≡ inl err)
unfolding update_webhooks wanted_webhooks set_webhook
update_webhooks_settles r present err pods agents p a =
    let pods_name = name-find_webhook "mpod.kb.io" present in
    let agents_name = name-find_webhook "whatapagent.kb.io" present in
    (
      refl,
      pair_of pods_name agents_name,
      refl,
      pair_of (untouched-find_webhook "mpod.kb.io" present pods p)
          (untouched-find_webhook "whatapagent.kb.io" present agents a),
      ap inr (
          wanted_webhooks-again r (find_webhook "mpod.kb.io" present)
            (find_webhook "whatapagent.kb.io" present) pods_name agents_name),
      refl,
    )
