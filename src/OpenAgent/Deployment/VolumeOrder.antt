-- ===== src/OpenAgent/Deployment/VolumeOrder.antt =====
-- That the order of the volumes is the order of the map of TLS secrets
-- (internal/controller/install_agents.go, installOpenAgent).
use whatap_operator.Prelude.{
  String, false, List, ◌∷◌, Dict, ◌==◌, ◌≡◌, ◌≢◌, ap, arith, test_of_eq, concat_cancel_left,
}
use whatap_operator.OpenAgent.Yaml.Determinism.{SameMap, swap}
use whatap_operator.OpenAgent.Deployment.{Volume, open_agent_volumes}

abbrev third_name : List Volume → String
third_name (a ∷ b ∷ v ∷ vs) = v.name
third_name vs = ""

-- Two TLS secrets in the two orders in which Go may walk their map give two different lists of
-- volumes: the pod template then changes although nothing was changed.
pub volumes_depend_on_order :
    (n m : String) (ks js : List String) (rest : Dict (List String))
    → (n == m) ≡ false
    → SameMap ((n, ks) ∷ (m, js) ∷ rest) ((m, js) ∷ (n, ks) ∷ rest)
      × (open_agent_volumes ((n, ks) ∷ (m, js) ∷ rest)
          ≢ open_agent_volumes ((m, js) ∷ (n, ks) ∷ rest))
unfolding open_agent_volumes
volumes_depend_on_order n m ks js rest h = (
  swap n m ks js rest h,
  λ e.
      (let same = test_of_eq n m (concat_cancel_left "tls-secret-" n m (ap third_name e)) in
        ground (arith, same, h)),
)
