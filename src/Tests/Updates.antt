-- ===== src/Tests/Updates.antt =====
-- The merging of pod templates (internal/controller/install_agents.go) on a DaemonSet that has a
-- sidecar of the user's and an exporter that is not wanted any more.
use whatap_operator.Prelude.{
  ◌≤◌, ap, String, none, some, List, [], ◌∷◌, ◌≡◌, refl, Dict, lookup, insert, map, arith, eq_iff,
}
use whatap_operator.Workload.{
  Resources, Container, node_rules, by_name, apply_container_defaults, merge_containers,
  keep_existing, remove, Template, merge_template,
}
use whatap_operator.Workload.Maps.{find_container, IsRange}
use whatap_operator.Workload.Update.{merge_template_settles}
use whatap_operator.Workload.Names.{count_container, VisitsOnce, count_container-merge_containers}
use whatap_operator.Workload.Containers.{merged, find_container-merge_containers}

abbrev no_resources : Resources
no_resources = record { limits = []; requests = [] }

abbrev named : String → Resources → Container
named name resources = record {
  name = name;
  resources = resources;
  termination_message_path = "";
  termination_message_policy = "";
  image_pull_policy = "";
  other_fields = [];
}

abbrev tuned : Resources
tuned = record { limits = ("cpu", "2") ∷ []; requests = [] }

abbrev wanted : List Container
wanted = named "whatap-node-agent" no_resources ∷ named "whatap-node-helper" no_resources ∷ []

abbrev existing : List Container
existing =
    named "sidecar" tuned
    ∷ named "whatap-node-agent" tuned
    ∷ named "dcgm-exporter" no_resources
    ∷ []

abbrev values : Dict Container → List Container
values [] = []
values ((k, c) ∷ m) = c ∷ values m

values-IsRange : IsRange values
unfolding find_container lookup
values-IsRange [] h n = refl
values-IsRange ((k, c) ∷ m) h n =
    ground (arith, h.0.0, eq_iff c.name n, eq_iff k n, values-IsRange m (h.0.1, h.1.1) n)

find_container-merge_containers_example :
    find_container "sidecar" (merge_containers (node_rules no_resources) values wanted existing)
    ≡ merged
        (node_rules no_resources)
        (lookup "sidecar" (by_name wanted))
        (find_container "sidecar" existing)
        "sidecar"
find_container-merge_containers_example =
    find_container-merge_containers (node_rules no_resources) values values-IsRange wanted existing
      "sidecar"

-- A template of containers, with labels and without the optional settings.
abbrev template : Dict String → List Container → Template
template labels containers = record {
  labels = labels;
  security_context = none;
  containers = containers;
  init_containers = [];
}

abbrev wanted_template : Template
wanted_template = template (("name", "whatap-node-agent") ∷ []) wanted

abbrev present_template : Template
present_template = template (("injected", "yes") ∷ []) existing

abbrev after : Template → Template
after present = merge_template (node_rules no_resources) values wanted_template (some present)

merge_template_settles_example :
    (lookup "whatap-node-agent" (after (after present_template)).labels
      ≡ lookup "whatap-node-agent" (after present_template).labels)
    × ((after (after present_template)).security_context
        ≡ (after present_template).security_context)
    × (find_container "whatap-node-agent" (after (after present_template)).containers
        ≡ find_container "whatap-node-agent" (after present_template).containers)
    × ((after (after present_template)).init_containers ≡ (after present_template).init_containers)
merge_template_settles_example =
    merge_template_settles (node_rules no_resources) values values-IsRange wanted_template
      present_template "whatap-node-agent"

-- The sidecar stays first, the agent keeps its resources, and the exporter goes.
names_after_merge :
    map
      (λ (c : Container). c.name)
      (merge_containers (node_rules no_resources) values wanted existing)
    ≡ "sidecar" ∷ "whatap-node-agent" ∷ "whatap-node-helper" ∷ []
unfolding merge_containers by_name keep_existing apply_container_defaults insert lookup remove
names_after_merge = refl

values-VisitsOnce : VisitsOnce values
unfolding count_container lookup
values-VisitsOnce [] h n = refl
values-VisitsOnce ((k, c) ∷ m) h n = ground (
  arith,
  h.0.0,
  eq_iff c.name n,
  eq_iff k n,
  ap (λ x. lookup x m) ((eq_iff k n).0 _),
  h.1.0,
  values-VisitsOnce m (h.0.1, h.1.1) n,
)

sidecar_once : count_container "sidecar" existing ≤ 1
unfolding count_container
sidecar_once = omega arith

count_container-merge_containers_example :
    count_container "sidecar" (merge_containers (node_rules no_resources) values wanted existing)
    ≤ 1
count_container-merge_containers_example =
    count_container-merge_containers (node_rules no_resources) "sidecar" values values-VisitsOnce
      wanted existing sidecar_once
