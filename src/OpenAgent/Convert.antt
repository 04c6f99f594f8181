-- ===== src/OpenAgent/Convert.antt =====
-- The parts of a target as maps (internal/controller/install_agents.go): convertLabelSelector,
-- convertRelabelConfigs, buildAuthorizationMap and convertEndpoints.
pub mod Lookup
pub mod Keys
use whatap_operator.Prelude.{
  String, Bool, true, false, ℕ, Option, none, some, List, [], ◌∷◌, Dict, if◌then◌else◌, is_empty,
  nat_eq, ◌==◌, ◌⊕◌,
}
use whatap_operator.Webhook.Types.{LabelSelectorRequirement}
use whatap_operator.OpenAgent.Types.{
  SecretKeySelector, BasicAuthConfig, AuthorizationConfig, TlsConfig, MetricRelabelConfig,
  OpenAgentEndpoint, LabelSelector,
}
use whatap_operator.OpenAgent.Yaml.{
  Value, Items, Fields, text, number, flag, texts, text_map, texts_map, object, array, nil, cons,
  end, field,
}

-- `m[key] = value` on a map[string]interface{}.
unfoldable pub set : String → Value → Fields → Fields
set key value end = field key value end
set key value (field k v fs) =
    let rest = set key value fs in if k == key then field key value fs else field k v rest

-- `if s != "" { m[key] = s }`
abbrev pub set_text : String → String → Fields → Fields
set_text key s m = if s == "" then m else set key (text s) m

abbrev pub set_number : String → ℕ → Fields → Fields
set_number key n m = if nat_eq n 0 then m else set key (number n) m

abbrev pub set_texts : String → List String → Fields → Fields
set_texts key ss m = if is_empty ss then m else set key (texts ss) m

abbrev pub set_labels : String → Dict String → Fields → Fields
set_labels key labels m = if is_empty labels then m else set key (text_map labels) m

-- A loop that appends one value for each element.
abbrev pub items {ℓ} : {A : Type ℓ} → (A → Value) → List A → Items
items f [] = nil
items f (x ∷ xs) = cons (f x) (items f xs)

abbrev pub convert_expression : LabelSelectorRequirement → Value
convert_expression expr = object (
    set "values" (texts expr.values)
      (set "operator" (text expr.operator) (set "key" (text expr.key) end)))

abbrev pub set_expressions : List LabelSelectorRequirement → Fields → Fields
set_expressions exprs m =
    if is_empty exprs then m else set "matchExpressions" (array (items convert_expression exprs)) m

unfoldable pub convert_label_selector : LabelSelector → Fields
convert_label_selector selector =
    set_expressions selector.match_expressions (set_labels "matchLabels" selector.match_labels end)

unfoldable pub convert_relabel_config : MetricRelabelConfig → Value
convert_relabel_config rc = object (
    set_text "action" rc.action (
      set_text "replacement" rc.replacement (
        set_text "target_label" rc.target_label (
          set_number "modulus" rc.modulus (
            set_text "regex" rc.regex (
              set_text "separator" rc.separator
                (set_texts "source_labels" rc.source_labels end)))))))

abbrev pub convert_relabel_configs : List MetricRelabelConfig → Items
convert_relabel_configs configs = items convert_relabel_config configs

abbrev pub secret_reference : SecretKeySelector → Value
secret_reference s = object (
    field "name" (text s.name)
      (field "key" (text s.key) (field "namespace" (text s.namespace) end)))

abbrev pub set_secret : String → Option SecretKeySelector → Fields → Fields
set_secret key none m = m
set_secret key (some s) m = set key (secret_reference s) m

unfoldable pub build_authorization_map : Option AuthorizationConfig → Option Fields
build_authorization_map none = none
build_authorization_map (some auth) = some (
    set_secret "credentialsSecret" auth.credentials_secret (
      set_text "credentialsFile" auth.credentials_file (
        set_text "credentialsEnv" auth.credentials_env
          (set_text "credentials" auth.credentials (set_text "type" auth.type end)))))

-- `fmt.Sprintf("/etc/ssl/certs/%s/%s", ...)`
abbrev pub secret_path : SecretKeySelector → String
secret_path s = "/etc/ssl/certs/" ⊕ s.name ⊕ "/" ⊕ s.key

-- The path of a certificate or key: the file if one is given, otherwise that of the secret.
abbrev pub tls_file : String → Option SecretKeySelector → Option String
tls_file file secret =
    if file == "" then (elim secret [ none ↦ none | some s ↦ some (secret_path s) ]) else some file

abbrev pub set_file : String → Option String → Fields → Fields
set_file key none m = m
set_file key (some file) m = set key (text file) m

unfoldable pub convert_tls_config : TlsConfig → Fields
convert_tls_config tls = set_text "serverName" tls.server_name (
    set_file "keyFile" (tls_file tls.key_file tls.key_secret) (
      set_file "certFile" (tls_file tls.cert_file tls.cert_secret) (
        set_file "caFile" (tls_file tls.ca_file tls.ca_secret)
          (set "insecureSkipVerify" (flag tls.insecure_skip_verify) end))))

abbrev pub set_basic_auth : Option BasicAuthConfig → Fields → Fields
set_basic_auth none m = m
set_basic_auth (some auth) m =
    set "basicAuth"
      (object (set_secret "password" auth.password (set_secret "username" auth.username end))) m

abbrev pub set_authorization : Option Fields → Fields → Fields
set_authorization none m = m
set_authorization (some auth) m = set "authorization" (object auth) m

abbrev pub set_tls_config : Option TlsConfig → Fields → Fields
set_tls_config none m = m
set_tls_config (some tls) m = set "tlsConfig" (object (convert_tls_config tls)) m

-- The entries before the TLS configuration.
abbrev pub endpoint_head : OpenAgentEndpoint → Fields
endpoint_head endpoint =
    let m1 = set_text "port" endpoint.port end in
    let m2 = set_text "address" endpoint.address m1 in
    let m3 = set_text "path" endpoint.path m2 in
    let m4 = set_text "interval" endpoint.interval m3 in
    let m5 = set_text "scheme" endpoint.scheme m4 in
    let m6 = set_basic_auth endpoint.basic_auth m5 in
    set_authorization (build_authorization_map endpoint.authorization) m6

abbrev pub set_params : Dict (List String) → Fields → Fields
set_params params m = if is_empty params then m else set "params" (texts_map params) m

unfoldable pub convert_endpoint : OpenAgentEndpoint → Fields
convert_endpoint endpoint =
    let m8 = set_tls_config endpoint.tls_config (endpoint_head endpoint) in
    let m9 = set_params endpoint.params m8 in
    let m10 = if endpoint.add_node_label then set "addNodeLabel" (flag true) m9 else m9 in
    if is_empty endpoint.metric_relabel_configs
    then m10
    else set "metricRelabelConfigs"
        (array (convert_relabel_configs endpoint.metric_relabel_configs)) m10

abbrev pub convert_endpoints : List OpenAgentEndpoint → Items
convert_endpoints endpoints = items (λ e. object (convert_endpoint e)) endpoints
