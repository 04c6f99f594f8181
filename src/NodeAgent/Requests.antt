-- ===== src/NodeAgent/Requests.antt =====
-- What createOrUpdateNodeAgent asks of the API server (internal/controller/install_agents.go).
use whatap_operator.Prelude.{
  Bool, true, false, List, any, not, ◌&&◌, ◌||◌, ◌==◌, ◌≡◌, refl, arith, ap, sym, ◌∙◌, Bool-cases,
  inl, inr,
}
use whatap_operator.NodeAgent.{
  Request, apply_daemon_set, delete_daemon_set, ensure_dcgm_service, GpuSpec, NodeSpec, gpu_agent,
  has_node_selector, has_affinity, ensure_service, and_then, create_or_update_node_agent,
}

-- A request whose refusal counts.
abbrev pub is_vital : Request → Bool
is_vital (apply_daemon_set name placement with_dcgm) = true
is_vital (delete_daemon_set name) = false
is_vital ensure_dcgm_service = true

abbrev pub applies_gpu_agent : Request → Bool
applies_gpu_agent (apply_daemon_set name placement with_dcgm) = name == gpu_agent
applies_gpu_agent (delete_daemon_set name) = false
applies_gpu_agent ensure_dcgm_service = false

abbrev pub deletes_gpu_agent : Request → Bool
deletes_gpu_agent (apply_daemon_set name placement with_dcgm) = false
deletes_gpu_agent (delete_daemon_set name) = name == gpu_agent
deletes_gpu_agent ensure_dcgm_service = false

module _ (fails : Request → Bool) where
  -- The error of a sequence is that of a request in it whose refusal counts.
  abbrev pub Reports : List Request × Bool → Type 0
  Reports r = r.1 ≡ any (λ (q : Request). is_vital q && fails q) r.0

  ensure_service-Reports : (gpu : GpuSpec) → Reports (ensure_service fails gpu)
  unfolding ensure_service
  ensure_service-Reports gpu = elim (Bool-cases (gpu.enabled && gpu.service_enabled)) [
    | inl e ↦ rw e (ground arith)
    | inr e ↦ rw e
  ]

  and_then-Reports :
      (r : Request) (rest : List Request × Bool)
      → is_vital r ≡ true
      → Reports rest
      → Reports (and_then r fails rest)
  and_then-Reports r rest v h = elim (Bool-cases (fails r)) [
    | inl e ↦ rw (e, v) (ground (arith, e))
    | inr e ↦
        rw (e, v) (h ∙ ap (λ b. b || any (λ (q : Request). is_vital q && fails q) rest.0) (sym e))
  ]

  -- createOrUpdateNodeAgent returns an error exactly if one of the requests that it made was
  -- refused, a deletion apart.
  pub create_or_update_node_agent-Reports :
      (node : NodeSpec) (gpu : GpuSpec) → Reports (create_or_update_node_agent fails node gpu)
  unfolding create_or_update_node_agent
  create_or_update_node_agent-Reports node gpu =
      elim (Bool-cases (gpu.enabled && (has_node_selector gpu || has_affinity gpu))) [
        | inl e ↦
            rw e
              (and_then-Reports _ _ refl (and_then-Reports _ _ refl (ensure_service-Reports gpu)))
        | inr e ↦ rw e (and_then-Reports _ _ refl (ensure_service-Reports gpu))
      ]

  ensure_service_none :
      (p : Request → Bool) (gpu : GpuSpec)
      → p ensure_dcgm_service ≡ false
      → any p (ensure_service fails gpu).0 ≡ false
  unfolding ensure_service
  ensure_service_none p gpu h = elim (Bool-cases (gpu.enabled && gpu.service_enabled)) [
    | inl e ↦ rw (e, h)
    | inr e ↦ rw e
  ]

  any-and_then :
      (p : Request → Bool) (r : Request) (rest : List Request × Bool)
      → p r ≡ false
      → any p rest.0 ≡ false
      → any p (and_then r fails rest).0 ≡ false
  any-and_then p r rest h g = elim (Bool-cases (fails r)) [
    | inl e ↦ rw (e, h)
    | inr e ↦ rw (e, h) g
  ]

  any-and_then_first :
      (p : Request → Bool) (r : Request) (rest : List Request × Bool)
      → p r ≡ true
      → any p (and_then r fails rest).0 ≡ true
  any-and_then_first p r rest h = elim (Bool-cases (fails r)) [
    | inl e ↦ rw (e, h)
    | inr e ↦ rw (e, h)
  ]

  -- The DaemonSet of the GPU agent is applied exactly if GPU monitoring is on and the GPU nodes are
  -- described, and deleted exactly in all other cases, whatever requests are refused.
  pub gpu_agent_switches :
      (node : NodeSpec) (gpu : GpuSpec)
      → (any applies_gpu_agent (create_or_update_node_agent fails node gpu).0
          ≡ (gpu.enabled && (has_node_selector gpu || has_affinity gpu)))
        × (any deletes_gpu_agent (create_or_update_node_agent fails node gpu).0
            ≡ not (gpu.enabled && (has_node_selector gpu || has_affinity gpu)))
  unfolding create_or_update_node_agent
  gpu_agent_switches node gpu =
      elim (Bool-cases (gpu.enabled && (has_node_selector gpu || has_affinity gpu))) [
        | inl e ↦ rw e (
          any-and_then_first applies_gpu_agent _ _ refl,
          any-and_then deletes_gpu_agent _ _ refl (
              any-and_then deletes_gpu_agent _ _ refl
                (ensure_service_none deletes_gpu_agent gpu refl)),
        )
        | inr e ↦ rw e (
          any-and_then applies_gpu_agent _ _ refl (ensure_service_none applies_gpu_agent gpu refl),
          refl,
        )
      ]
