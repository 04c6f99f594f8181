-- ===== src/OpenAgent.antt =====
-- The OpenAgent (internal/controller/install_agents.go): its scrape configuration
-- (generateScrapeConfig) and its installation (installOpenAgent).
pub mod Yaml
pub mod Types
pub mod Convert
pub mod LabelName
pub mod Targets
pub mod Gpu
pub mod Scrape
pub mod Deployment
pub mod Install
