-- ===== src/Webhook/Patch.antt =====
-- patchPodTemplateSpec of internal/webhook/v2alpha1/process_deployments.go: what an injection does
-- to a pod. Each block of the Go function is a function here, and they are composed in its order.
pub mod Mounts
pub mod Config
pub mod Volumes
pub mod Secrets
use whatap_operator.Prelude.{
  String, Bool, true, false, Option, none, some, List, [], ◌∷◌, ◌++◌, map, foldl, if◌then◌else◌,
  ◌==◌, contains, lookup, or_default, is_empty, ◌⊕◌, ◌&&◌, ◌||◌, is_some, join, any, not,
}
use whatap_operator.Webhook.Names.{volume_name_whatap_agent, mount_path_whatap_agent}
use whatap_operator.Webhook.Types.{
  EnvConfig, TargetSpec, InstrumentationSpec, VolumeMount, Container, Volume, empty_dir, config_map,
  PodSpec,
}
use whatap_operator.Webhook.Injector.{inject_language_specific_env_vars}
use whatap_operator.Webhook.InitContainer.{agent_mount, create_agent_init_containers}

-- The version of the agent, "latest" where the target has none.
unfoldable pub resolve_version : TargetSpec → String
resolve_version target =
    let version = or_default (lookup target.language target.whatap_apm_versions) "" in
    if version == "" then "latest" else version

-- The loop over the target's pull secrets, with the set of the names seen.
pub record SecretState : Type 0 where
  pub existing : List String
  pub secrets : List String

unfoldable pub secret_step : SecretState → String → SecretState
secret_step st s =
    if contains st.existing s
    then st
    else record { existing = s ∷ st.existing; secrets = st.secrets ++ s ∷ [] }

unfoldable pub add_image_pull_secrets : List String → List String → List String
add_image_pull_secrets secrets target_secrets =
    (foldl secret_step (record { existing = secrets; secrets = secrets }) target_secrets).secrets

unfoldable pub volume_exists : String → List Volume → Bool
volume_exists name [] = false
volume_exists name (v ∷ vs) = v.name == name || volume_exists name vs

unfoldable pub append_if_not_exists : List Volume → Volume → List Volume
append_if_not_exists volumes new_vol =
    if volume_exists new_vol.name volumes then volumes else volumes ++ new_vol ∷ []

-- `initContainers[0]`, guarded by the length of the list.
abbrev pub update_first : (Container → Container) → List Container → List Container
update_first f [] = []
update_first f (c ∷ cs) = f c ∷ cs

abbrev pub add_mount : VolumeMount → Container → Container
add_mount m c = record c { volume_mounts = c.volume_mounts ++ m ∷ [] }

-- What the configuration block works on.
pub record ConfigState : Type 0 where
  pub volumes : List Volume
  pub init_containers : List Container
  pub pre_init_steps : List String
  pub post_init_steps : List String

abbrev pub is_custom : TargetSpec → Bool
is_custom target = target.config.mode == "custom" && is_some target.config.config_map_ref

abbrev pub config_volume_name : TargetSpec → String
config_volume_name target =
    if target.config.volume_name == "" then "config-volume" else target.config.volume_name

abbrev pub config_mount_path : TargetSpec → String
config_mount_path target =
    if target.config.mount_path == "" then "/config-volume" else target.config.mount_path

-- Custom whatap.conf via a ConfigMap.
unfoldable pub add_custom_config : TargetSpec → ConfigState → ConfigState
add_custom_config target st =
    if is_custom target
    then (if volume_exists (config_volume_name target) st.volumes then st else record {
      volumes =
          st.volumes
          ++ record {
            name = config_volume_name target;
            source = config_map (or_default target.config.config_map_ref "");
          }
            ∷ [];
      init_containers =
          update_first
            (add_mount
              (record { name = config_volume_name target; mount_path = config_mount_path target }))
            st.init_containers;
      pre_init_steps =
          st.pre_init_steps
          ++ ("cp " ⊕ config_mount_path target ⊕ "/whatap.conf " ⊕ mount_path_whatap_agent ⊕ "/")
            ∷ ("chmod 644 " ⊕ mount_path_whatap_agent ⊕ "/whatap.conf")
            ∷ [];
      post_init_steps = st.post_init_steps;
    })
    else st

abbrev pub plugin_volume : String
plugin_volume = "whatap-plugin-volume"

abbrev pub plugin_mount_path : String
plugin_mount_path = "/whatap-plugin"

abbrev pub plugin_dir : String
plugin_dir = mount_path_whatap_agent ⊕ "/plugin"

-- Agent plugin files via a ConfigMap.
unfoldable pub add_plugin_config : TargetSpec → ConfigState → ConfigState
add_plugin_config target st = elim target.config.plugin_config_map_ref [
  | none ↦ st
  | some ref ↦ if volume_exists plugin_volume st.volumes then st else record {
    volumes = st.volumes ++ record { name = plugin_volume; source = config_map ref } ∷ [];
    init_containers =
        update_first (add_mount (record { name = plugin_volume; mount_path = plugin_mount_path }))
          st.init_containers;
    pre_init_steps = st.pre_init_steps;
    post_init_steps =
        st.post_init_steps
        ++ ("mkdir -p " ⊕ plugin_dir)
          ∷ ("cp -L " ⊕ plugin_mount_path ⊕ "/* " ⊕ plugin_dir ⊕ "/ 2>/dev/null || true")
          ∷ ("chmod 644 " ⊕ plugin_dir ⊕ "/* 2>/dev/null || true")
          ∷ [];
  }
]

abbrev pub init_script_step : String
init_script_step = "if [ -x /init.sh ]; then /init.sh; fi"

abbrev set_command : List String → Container → Container
set_command steps c = record c { command = "sh" ∷ "-c" ∷ []; args = join " && " steps ∷ [] }

unfoldable pub assemble_command : ConfigState → List Container
assemble_command st =
    if is_empty st.pre_init_steps && is_empty st.post_init_steps
    then st.init_containers
    else update_first
        (set_command (st.pre_init_steps ++ (init_script_step ∷ []) ++ st.post_init_steps))
        st.init_containers

-- The whole block, with its outer test.
unfoldable pub add_config : TargetSpec → List Volume → List Container → List Volume × List Container
add_config target volumes init_containers =
    if is_custom target || is_some target.config.plugin_config_map_ref
    then (let start : ConfigState = record {
      volumes = volumes;
      init_containers = init_containers;
      pre_init_steps = [];
      post_init_steps = [];
    } in
        let st = add_plugin_config target (add_custom_config target start) in
        (st.volumes, assemble_command st))
    else (volumes, init_containers)

abbrev pub agent_volume : Volume
agent_volume = record { name = volume_name_whatap_agent; source = empty_dir }

abbrev pub patch_container : EnvConfig → TargetSpec → String → Container → Container
patch_container cfg target lang c = record c {
  env = inject_language_specific_env_vars cfg c target lang;
  volume_mounts = c.volume_mounts ++ agent_mount ∷ [];
}

unfoldable pub patch_pod_template_spec :
    EnvConfig → InstrumentationSpec → TargetSpec → PodSpec → PodSpec
patch_pod_template_spec cfg instrumentation target pod_spec =
    let lang = target.language in
    let init =
      create_agent_init_containers cfg target instrumentation lang (resolve_version target) in
    let (volumes, init_containers) = add_config target pod_spec.volumes init in
    record {
      image_pull_secrets =
          add_image_pull_secrets pod_spec.image_pull_secrets target.image_pull_secrets;
      init_containers = pod_spec.init_containers ++ init_containers;
      volumes = append_if_not_exists volumes agent_volume;
      containers = map (patch_container cfg target lang) pod_spec.containers;
    }
