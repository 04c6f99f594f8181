-- ===== src/OpenAgent/Scrape.antt =====
-- The scrape configuration as a whole (internal/controller/install_agents.go,
-- generateScrapeConfig). yaml.Marshal, of a library, is a parameter, which gives a text or an error.
use whatap_operator.Prelude.{String, Bool, Option, List, ◌⊎◌, inl, inr, ◌⊕◌}
use whatap_operator.OpenAgent.Types.{
  ScrapeSpec, WhatapPodMonitor, WhatapServiceMonitor, WhatapStaticEndpoint,
}
use whatap_operator.OpenAgent.Yaml.{Value}
use whatap_operator.OpenAgent.Targets.{configured_targets}
use whatap_operator.OpenAgent.Gpu.{add_gpu_target}

pub record ScrapeConfig : Type 0 where
  pub enabled : Bool
  pub targets : List Value

-- toOrderedYAML leaves the struct itself as it is: only the targets have maps in them.
unfoldable pub scrape_config :
    ScrapeSpec
    → String
    → Option (List WhatapPodMonitor)
    → Option (List WhatapServiceMonitor)
    → Option (List WhatapStaticEndpoint)
    → ScrapeConfig
scrape_config spec default_namespace pod_monitors service_monitors static_endpoints = record {
  enabled = spec.enabled;
  targets =
      add_gpu_target default_namespace spec
        (configured_targets spec.targets pod_monitors service_monitors static_endpoints);
}

unfoldable pub generate_scrape_config :
    (ScrapeConfig → String ⊎ String)
    → ScrapeSpec
    → String
    → Option (List WhatapPodMonitor)
    → Option (List WhatapServiceMonitor)
    → Option (List WhatapStaticEndpoint)
    → String
generate_scrape_config marshal spec default_namespace pod_monitors service_monitors
      static_endpoints =
    elim (marshal
      (scrape_config spec default_namespace pod_monitors service_monitors static_endpoints)) [
        | inl yaml ↦ yaml
        | inr err ↦ "# Error generating scrape config: " ⊕ err
      ]
