-- ===== src/Webhook/Patch/Config.antt =====
-- The volumes of the configuration block of patchPodTemplateSpec
-- (internal/webhook/v2alpha1/process_deployments.go): custom configuration and plugins.
use whatap_operator.Prelude.{
  String, false, List, [], ◌∷◌, ◌++◌, or_default, ◌||◌, ◌≡◌, arith, eq_refl, All, Bool-cases, inl,
  inr, Option-cases, is_some, ◌&&◌, is_empty,
}
use whatap_operator.Webhook.Types.{TargetSpec, Container, Volume, config_map}
use whatap_operator.Webhook.Patch.{
  volume_exists, update_first, add_mount, ConfigState, add_custom_config, add_plugin_config,
  assemble_command, add_config, agent_volume, plugin_volume, plugin_mount_path, config_volume_name,
  config_mount_path, is_custom,
}
use whatap_operator.Webhook.Patch.Mounts.{
  Unique, Mounted, Extends, volume_exists-append, Unique-append, Extends-append,
  Extends-append_both, All-Mounted-Extends, Mounted-add_mount, update_first-Mounted,
}

-- The configuration block keeps the volumes unique and the init container's mounts resolved; the
-- agent's volume is added later, and counts as there.
record IsGood (st : ConfigState) : Type 0 where
  unique : Unique st.volumes
  mounted : All (Mounted (st.volumes ++ agent_volume ∷ [])) st.init_containers

-- A block that adds a volume of a new name and mounts it in the first container.
module _ (vs : List Volume) (cs : List Container) (v : Volume) (path : String)
    (fresh : volume_exists v.name vs ≡ false) where
  added-Unique : Unique vs → Unique (vs ++ v ∷ [])
  added-Unique u = Unique-append vs v u fresh

  added-Mounted :
      All (Mounted (vs ++ agent_volume ∷ [])) cs
      → All
          (Mounted ((vs ++ v ∷ []) ++ agent_volume ∷ []))
          (update_first (add_mount (record { name = v.name; mount_path = path })) cs)
  unfolding volume_exists
  added-Mounted h =
      update_first-Mounted _ _
        (λ c.
          Mounted-add_mount _ (record { name = v.name; mount_path = path }) c
            (ground (
              arith,
              eq_refl v.name,
              volume_exists-append v.name (vs ++ v ∷ []) (agent_volume ∷ []),
              volume_exists-append v.name vs (v ∷ []),
            )))
        cs
        (All-Mounted-Extends _ _
          (Extends-append_both vs (vs ++ v ∷ []) (agent_volume ∷ []) (Extends-append vs (v ∷ [])))
          cs h)

add_custom_config-IsGood :
    (target : TargetSpec) (st : ConfigState) → IsGood st → IsGood (add_custom_config target st)
unfolding add_custom_config
add_custom_config-IsGood target st g = elim (Bool-cases (is_custom target)) [
  | inl c ↦ elim (Bool-cases (volume_exists (config_volume_name target) st.volumes)) [
    | inl e ↦ rw (c, e) g
    | inr e ↦
        rw (c, e)
          (record {
            unique =
                added-Unique st.volumes st.init_containers _ (config_mount_path target) e g.unique;
            mounted =
                added-Mounted st.volumes st.init_containers
                  (record {
                    name = config_volume_name target;
                    source = config_map (or_default target.config.config_map_ref "");
                  })
                  (config_mount_path target) e g.mounted;
          })
  ]
  | inr c ↦ rw c g
]

add_plugin_config-IsGood :
    (target : TargetSpec) (st : ConfigState) → IsGood st → IsGood (add_plugin_config target st)
unfolding add_plugin_config
add_plugin_config-IsGood target st g = elim (Option-cases target.config.plugin_config_map_ref) [
  | inl n ↦ rw (n, add_plugin_config) g
  | inr (ref, s) ↦ elim (Bool-cases (volume_exists plugin_volume st.volumes)) [
    | inl e ↦ rw (s, add_plugin_config) (rw e g)
    | inr e ↦
        rw (s, add_plugin_config)
          (rw e (record {
            unique = added-Unique st.volumes st.init_containers _ plugin_mount_path e g.unique;
            mounted =
                added-Mounted st.volumes st.init_containers
                  (record { name = plugin_volume; source = config_map ref }) plugin_mount_path e
                  g.mounted;
          }))
  ]
]

-- Setting the command does not touch the mounts.
assemble_command-Mounted :
    (st : ConfigState) (vs : List Volume)
    → All (Mounted vs) st.init_containers
    → All (Mounted vs) (assemble_command st)
unfolding assemble_command
assemble_command-Mounted st vs h =
    elim (Bool-cases (is_empty st.pre_init_steps && is_empty st.post_init_steps)) [
      | inl e ↦ rw e h
      | inr e ↦ rw e (update_first-Mounted vs _ (λ c m. m) st.init_containers h)
    ]

-- The block as a whole, and that it only adds volumes.
pub record IsGoodPair (volumes : List Volume) (r : List Volume × List Container) : Type 0 where
  pub unique : Unique r.0
  pub mounted : All (Mounted (r.0 ++ agent_volume ∷ [])) r.1
  pub extends : Extends volumes r.0

add_custom_config-Extends :
    (target : TargetSpec) (st : ConfigState)
    → Extends st.volumes (add_custom_config target st).volumes
unfolding add_custom_config
add_custom_config-Extends target st n h = ground (
  arith,
  volume_exists-append n st.volumes (
      record {
        name = config_volume_name target;
        source = config_map (or_default target.config.config_map_ref "");
      }
      ∷ []),
)

add_plugin_config-Extends :
    (target : TargetSpec) (st : ConfigState)
    → Extends st.volumes (add_plugin_config target st).volumes
unfolding add_plugin_config
add_plugin_config-Extends target st n h = elim (Option-cases target.config.plugin_config_map_ref) [
  | inl e ↦ rw (e, add_plugin_config) h
  | inr (ref, e) ↦
      rw (e, add_plugin_config)
        (ground (
          arith,
          volume_exists-append n st.volumes
              (record { name = plugin_volume; source = config_map ref } ∷ []),
        ))
]

pub add_config-IsGoodPair :
    (target : TargetSpec) (volumes : List Volume) (cs : List Container)
    → Unique volumes
    → All (Mounted (volumes ++ agent_volume ∷ [])) cs
    → IsGoodPair volumes (add_config target volumes cs)
unfolding add_config
add_config-IsGoodPair target volumes cs u m =
    elim (Bool-cases (is_custom target || is_some target.config.plugin_config_map_ref)) [
      | inl e ↦ rw e (
          let start : ConfigState = record {
            volumes = volumes;
            init_containers = cs;
            pre_init_steps = [];
            post_init_steps = [];
          } in
          let custom = add_custom_config target start in
          let g : IsGood (add_plugin_config target custom) =
            add_plugin_config-IsGood target custom
              (add_custom_config-IsGood target start (record { unique = u; mounted = m })) in
          record {
            unique = g.unique;
            mounted = assemble_command-Mounted (add_plugin_config target custom) _ g.mounted;
            extends = λ n h.
                add_plugin_config-Extends target custom n
                  (add_custom_config-Extends target start n h);
          })
      | inr e ↦ rw e (record { unique = u; mounted = m; extends = λ n h. h })
    ]
