-- ===== src/Workload.antt =====
-- How the master agent's Deployment and the node agent's DaemonSet are updated in place: resources,
-- container defaults, and the merging of the wanted pod template with the one that is there
-- (internal/controller/install_agents.go: setDefaultResource, applyContainerDefaults, mergePodSpec,
-- and the callbacks of createOrUpdateMasterAgent, reconcileNodeAgentDaemonSet and installOpenAgent).
--
-- Go leaves the order of a range over a map open, so the order in which the new containers are
-- appended is a parameter, `order`.
pub mod Maps
pub mod Containers
pub mod Update
pub mod Names
use whatap_operator.Prelude.{
  String, Bool, true, false, Option, none, some, List, [], ◌∷◌, ◌++◌, foldl, Dict, if◌then◌else◌,
  lookup, insert, is_empty, is_some, or_else, contains, not, ◌&&◌, ◌||◌, ◌==◌, map,
}

-- Quantities are texts.
pub record Resources : Type 0 where
  pub limits : Dict String
  pub requests : Dict String

-- The fields of a container that the merging reads or writes; the others are carried along.
pub record Container : Type 0 where
  pub name : String
  pub resources : Resources
  pub termination_message_path : String
  pub termination_message_policy : String
  pub image_pull_policy : String
  pub other_fields : List String

-- The pointers and slices of corev1.PodSecurityContext.
pub record SecurityContext : Type 0 where
  pub se_linux_options : Option String
  pub windows_options : Option String
  pub run_as_user : Option String
  pub run_as_group : Option String
  pub run_as_non_root : Option String
  pub supplemental_groups : Option String
  pub fs_group : Option String
  pub sysctls : Option String
  pub fs_group_change_policy : Option String
  pub seccomp_profile : Option String

pub record Template : Type 0 where
  pub labels : Dict String
  pub security_context : Option SecurityContext
  pub containers : List Container
  pub init_containers : List Container

-- The entries of a second map whose key the first one lacks.
unfoldable pub fill_missing : {V : Type 0} → Dict V → Dict V → Dict V
fill_missing m [] = m
fill_missing m ((k, v) ∷ defaults) =
    fill_missing (if is_some (lookup k m) then m else insert k v m) defaults

unfoldable pub set_default_resource : Resources → Dict String → Dict String → Resources
set_default_resource res def_req def_lim = record {
  limits = fill_missing res.limits def_lim;
  requests = fill_missing res.requests def_req;
}

abbrev pub or_text : String → String → String
or_text s default = if s == "" then default else s

unfoldable pub apply_container_defaults : Container → Container
apply_container_defaults c = record c {
  termination_message_path = or_text c.termination_message_path "/dev/termination-log";
  termination_message_policy = or_text c.termination_message_policy "File";
  image_pull_policy = or_text c.image_pull_policy "IfNotPresent";
}

abbrev pub is_resource_empty : Resources → Bool
is_resource_empty res = is_empty res.limits && is_empty res.requests

-- mergePodSpec: a field that the new security context lacks comes from the old one.
unfoldable pub merge_security_context :
    Option SecurityContext → Option SecurityContext → Option SecurityContext
merge_security_context new none = new
merge_security_context none (some old) = some old
merge_security_context (some new) (some old) = some (record {
  se_linux_options = or_else new.se_linux_options old.se_linux_options;
  windows_options = or_else new.windows_options old.windows_options;
  run_as_user = or_else new.run_as_user old.run_as_user;
  run_as_group = or_else new.run_as_group old.run_as_group;
  run_as_non_root = or_else new.run_as_non_root old.run_as_non_root;
  supplemental_groups = or_else new.supplemental_groups old.supplemental_groups;
  fs_group = or_else new.fs_group old.fs_group;
  sysctls = or_else new.sysctls old.sysctls;
  fs_group_change_policy = or_else new.fs_group_change_policy old.fs_group_change_policy;
  seccomp_profile = or_else new.seccomp_profile old.seccomp_profile;
})

-- Go's delete from a map.
unfoldable pub remove : {V : Type 0} → String → Dict V → Dict V
remove k [] = []
remove k ((j, v) ∷ m) = let rest = remove k m in if j == k then rest else (j, v) ∷ rest

-- The new containers by name, with their defaults.
unfoldable pub by_name : List Container → Dict Container
by_name cs = foldl (λ m c. insert c.name (apply_container_defaults c) m) [] cs

-- Which containers keep the resources that they have now, and which names the operator manages.
pub record Rules : Type 0 where
  pub keeps_resources : String → Bool
  pub managed : List String

-- The master agent's Deployment: every container keeps its resources unless the user sets them.
abbrev pub master_rules : Resources → Rules
master_rules user = record { keeps_resources = λ name. is_resource_empty user; managed = [] }

-- The node agent's DaemonSet: only the agent's container does; containers of the operator's own
-- that are not wanted any more are removed.
abbrev pub node_rules : Resources → Rules
node_rules user = record {
  keeps_resources = λ name. name == "whatap-node-agent" && is_resource_empty user;
  managed = "dcgm-exporter" ∷ "dcgm-hostengine" ∷ "whatap-node-agent" ∷ [];
}

-- The OpenAgent's Deployment: the resource has no field for its resources, so that they always stay.
abbrev pub open_agent_rules : Rules
open_agent_rules = record { keeps_resources = λ name. true; managed = [] }

abbrev pub updated : Rules → Container → Container → Container
updated rules new existing =
    if rules.keeps_resources new.name then record new { resources = existing.resources } else new

-- The loop over the existing containers: those kept, in order, and the new ones not met.
unfoldable pub keep_existing :
    Rules → Dict Container → List Container → List Container × Dict Container
keep_existing rules new [] = ([], new)
keep_existing rules new (existing ∷ es) = elim (lookup existing.name new) [
  | some c ↦
      let (kept, left) = keep_existing rules (remove existing.name new) es in
      (updated rules c existing ∷ kept, left)
  | none ↦
      let (kept, left) = keep_existing rules new es in
      if contains rules.managed existing.name then (kept, left) else (existing ∷ kept, left)
]

unfoldable pub merge_containers :
    Rules → (Dict Container → List Container) → List Container → List Container → List Container
merge_containers rules order wanted existing =
    let (kept, left) = keep_existing rules (by_name wanted) existing in kept ++ order left

-- The pod template of an update: `existing` is the one of the object that is there, if any.
unfoldable pub merge_template :
    Rules → (Dict Container → List Container) → Template → Option Template → Template
merge_template rules order wanted none = record wanted {
  containers = map apply_container_defaults wanted.containers;
}
merge_template rules order wanted (some existing) = record {
  labels = fill_missing wanted.labels existing.labels;
  security_context = merge_security_context wanted.security_context existing.security_context;
  containers = merge_containers rules order wanted.containers existing.containers;
  init_containers =
      if is_empty existing.init_containers
      then wanted.init_containers
      else existing.init_containers;
}

-- The callback of installOpenAgent.
unfoldable pub update_open_agent :
    (Dict Container → List Container) → Template → Option Template → Template
update_open_agent order wanted existing = merge_template open_agent_rules order wanted existing
