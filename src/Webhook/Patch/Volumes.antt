-- ===== src/Webhook/Patch/Volumes.antt =====
-- The volumes of a patched pod (internal/webhook/v2alpha1/process_deployments.go): names stay
-- unique and every mount has its volume, which Kubernetes demands of a pod.
use whatap_operator.Prelude.{
  String, true, List, [], ◌∷◌, ◌++◌, map, ◌≡◌, arith, eq_iff, All, All-append, Bool-cases, inl, inr,
}
use whatap_operator.Webhook.Names.{volume_name_whatap_agent}
use whatap_operator.Webhook.Types.{
  EnvConfig, TargetSpec, InstrumentationSpec, Container, Volume, PodSpec,
}
use whatap_operator.Webhook.InitContainer.{agent_mount, create_agent_init_containers}
use whatap_operator.Webhook.Patch.{
  volume_exists, append_if_not_exists, add_config, agent_volume, patch_container,
  patch_pod_template_spec, resolve_version,
}
use whatap_operator.Webhook.Patch.Mounts.{
  Unique, Mounted, Extends, volume_exists-append, Unique-append, Extends-append,
  All-Mounted-Extends, Mounted-add_mount,
}
use whatap_operator.Webhook.Patch.Config.{IsGoodPair, add_config-IsGoodPair}

pub record IsValidPod (p : PodSpec) : Type 0 where
  pub unique : Unique p.volumes
  pub mounted : All (Mounted p.volumes) p.containers
  pub init_mounted : All (Mounted p.volumes) p.init_containers

append_if_not_exists-Unique :
    (vs : List Volume) (v : Volume) → Unique vs → Unique (append_if_not_exists vs v)
unfolding append_if_not_exists
append_if_not_exists-Unique vs v u = elim (Bool-cases (volume_exists v.name vs)) [
  | inl e ↦ rw e u
  | inr e ↦ rw e (Unique-append vs v u e)
]

-- The volume is there afterwards, whether it was added or not.
append_if_not_exists-Extends :
    (vs : List Volume) (v : Volume) → Extends (vs ++ v ∷ []) (append_if_not_exists vs v)
unfolding append_if_not_exists volume_exists
append_if_not_exists-Extends vs v n h =
    ground (arith, volume_exists-append n vs (v ∷ []), eq_iff v.name n)

module _ (cfg : EnvConfig) (instrumentation : InstrumentationSpec) (target : TargetSpec) where
  patched_containers :
      (vs : List Volume)
      → volume_exists volume_name_whatap_agent vs ≡ true
      → (lang : String) (cs : List Container) → All (Mounted vs) cs
      → All (Mounted vs) (map (patch_container cfg target lang) cs)
  patched_containers vs e lang [] h = tt
  patched_containers vs e lang (c ∷ cs) h =
      (Mounted-add_mount vs agent_mount c e h.0, patched_containers vs e lang cs h.1)

  -- Patching a pod whose volumes have different names and whose containers mount only volumes of
  -- the pod gives such a pod again, whatever the target configures: a volume is never added under a
  -- name that is taken, and never mounted without being there.
  pub patch_pod_template_spec-IsValidPod :
      (p : PodSpec)
      → IsValidPod p
      → IsValidPod (patch_pod_template_spec cfg instrumentation target p)
  unfolding patch_pod_template_spec create_agent_init_containers volume_exists
  patch_pod_template_spec-IsValidPod p valid =
      let init =
        create_agent_init_containers cfg target instrumentation target.language
          (resolve_version target) in
      let result = add_config target p.volumes init in
      let there : volume_exists volume_name_whatap_agent (p.volumes ++ agent_volume ∷ []) ≡ true =
        ground
          (arith, volume_exists-append volume_name_whatap_agent p.volumes (agent_volume ∷ [])) in
      let good : IsGoodPair p.volumes result =
        add_config-IsGoodPair target p.volumes init valid.unique ((there, tt), tt) in
      let final = append_if_not_exists result.0 agent_volume in
      let last : Extends (result.0 ++ agent_volume ∷ []) final =
        append_if_not_exists-Extends result.0 agent_volume in
      let grown : Extends p.volumes final =
        λ n h. last n (Extends-append result.0 (agent_volume ∷ []) n (good.extends n h)) in
      let agent : volume_exists volume_name_whatap_agent final ≡ true =
        last volume_name_whatap_agent (
          ground
            (arith, volume_exists-append volume_name_whatap_agent result.0 (agent_volume ∷ []))) in
      record {
        unique = append_if_not_exists-Unique result.0 agent_volume good.unique;
        mounted =
            patched_containers final agent target.language p.containers
              (All-Mounted-Extends p.volumes final grown p.containers valid.mounted);
        init_mounted =
            All-append (Mounted final) p.init_containers result.1
              (All-Mounted-Extends p.volumes final grown p.init_containers valid.init_mounted)
              (All-Mounted-Extends _ final last result.1 good.mounted);
      }
