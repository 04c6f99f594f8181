-- ===== src/NodeAgent/Pod.antt =====
-- Properties of the node agents' pods (internal/controller/install_agents.go:
-- getNodeAgentDaemonSetSpec, addDcgmExporterToNodeAgent and generateScrapeConfig).
pub mod Volumes
pub mod Labels
pub mod Selector
