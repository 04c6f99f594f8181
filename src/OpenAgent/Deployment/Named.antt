-- ===== src/OpenAgent/Deployment/Named.antt =====
-- The certificate files that the scrape configuration names (internal/controller/install_agents.go:
-- generateScrapeConfig and convertEndpoints).
use whatap_operator.Prelude.{
  String, Bool, true, false, Option, some, List, [], ◌∷◌, any, any_append_left, not, ◌&&◌, ◌||◌,
  ◌==◌, ◌≡◌, ap, ◌∙◌, arith, eq_refl, Bool-cases, inl, inr,
}
use mathlib.Core.List.{Memᴰ}
use mathlib.Core.Option
use whatap_operator.OpenAgent.Types.{TlsConfig, OpenAgentEndpoint, OpenAgentTargetSpec, ScrapeSpec}
use whatap_operator.OpenAgent.Yaml.{
  Value, Items, Fields, text, object, array, nil, cons, to_ordered_yaml, ordered_items,
}
use whatap_operator.OpenAgent.Yaml.Entries.{find, at, at-ordered}
use whatap_operator.OpenAgent.Convert.{convert_tls_config, convert_endpoint, convert_endpoints}
use whatap_operator.OpenAgent.Convert.Lookup.{find-set}
use whatap_operator.OpenAgent.Targets.{
  set_endpoints, target_map, inline_targets, set_relabel_configs, set_selector,
  set_namespace_selector, target_head,
}
use whatap_operator.OpenAgent.Gpu.{add_gpu_target, agent_labels, is_duplicate}

abbrev is_text : String → Option Value → Bool
is_text file (some (text s)) = s == file
is_text file v = false

abbrev any_item : (Value → Bool) → Items → Bool
any_item p nil = false
any_item p (cons v vs) = p v || any_item p vs

-- Whether an endpoint of an ordered target has a file under a key of its TLS configuration.
module _ (k file : String) where
  abbrev endpoint_names : Value → Bool
  endpoint_names v = is_text file (at k (at "tlsConfig" (some v)))

  abbrev array_names : Option Value → Bool
  array_names (some (array vs)) = any_item endpoint_names vs
  array_names v = false

  abbrev pub target_names : Value → Bool
  target_names target = array_names (at "endpoints" (some target))

  module _ (e : OpenAgentEndpoint) (tls : TlsConfig)
      (written : find "tlsConfig" (convert_endpoint e) ≡ some (object (convert_tls_config tls)))
      (named : find k (convert_tls_config tls) ≡ some (text file)) where
    endpoint_names-ordered : endpoint_names (to_ordered_yaml (object (convert_endpoint e))) ≡ true
    unfolding to_ordered_yaml
    endpoint_names-ordered =
        ap (λ o. is_text file (at k o))
          (at-ordered "tlsConfig" (convert_endpoint e) ∙ ap (Option.map to_ordered_yaml) written)
        ∙ ap (is_text file)
            (at-ordered k (convert_tls_config tls) ∙ ap (Option.map to_ordered_yaml) named)
        ∙ eq_refl file

    items_name :
        (es : List OpenAgentEndpoint)
        → Memᴰ e es
        → any_item endpoint_names (ordered_items (convert_endpoints es)) ≡ true
    unfolding to_ordered_yaml
    items_name [] m = elim m [ ]
    items_name (x ∷ es) (Memᴰ.head p) = ground (
      arith,
      ap (λ y. endpoint_names (to_ordered_yaml (object (convert_endpoint y)))) p,
      endpoint_names-ordered,
    )
    items_name (x ∷ es) (Memᴰ.tail m) = ground (arith, items_name es m)

    -- A target whose endpoints are set last.
    pub target_names-endpoints :
        (es : List OpenAgentEndpoint) (m : Fields)
        → Memᴰ e es
        → target_names (to_ordered_yaml (object (set_endpoints es m))) ≡ true
    unfolding to_ordered_yaml
    target_names-endpoints [] m mem = elim mem [ ]
    target_names-endpoints (x ∷ es) m mem =
        ap array_names (
          at-ordered "endpoints" (set_endpoints (x ∷ es) m)
          ∙ ap (Option.map to_ordered_yaml) (find-set "endpoints" "endpoints" _ m))
        ∙ items_name (x ∷ es) mem

    pub inline_names :
        (ts : List OpenAgentTargetSpec) (t : OpenAgentTargetSpec)
        → Memᴰ t ts
        → t.enabled ≡ true
        → Memᴰ e t.endpoints
        → any target_names (inline_targets ts) ≡ true
    unfolding inline_targets target_map
    inline_names [] t m on mem = elim m [ ]
    inline_names (x ∷ ts) t (Memᴰ.head p) on mem = rw (← p) (
        rw on (
          ground (
            arith,
            target_names-endpoints t.endpoints
                (set_relabel_configs t.relabel_configs (
                  set_selector t.selector (
                    set_namespace_selector t.namespace_selector
                      (target_head t.target_name t.type t.enabled))))
                mem,
          )))
    inline_names (x ∷ ts) t (Memᴰ.tail m) on mem = elim (Bool-cases x.enabled) [
      | inl y ↦ rw y (ground (arith, inline_names ts t m on mem))
      | inr y ↦ rw y (inline_names ts t m on mem)
    ]

-- The target for GPU monitoring takes none of the others away.
pub any-add_gpu_target :
    (p : Value → Bool) (ns : String) (spec : ScrapeSpec) (existing : List Value)
    → any p existing ≡ true
    → any p (add_gpu_target ns spec existing) ≡ true
unfolding add_gpu_target
any-add_gpu_target p ns spec existing h =
    elim (Bool-cases
      (spec.gpu_monitoring.enabled && not (is_duplicate (agent_labels spec) existing))) [
        | inl e ↦ rw e (any_append_left p existing _ h)
        | inr e ↦ rw e h
      ]
