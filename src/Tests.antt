-- ===== src/Tests.antt =====
-- Runs on concrete inputs, and instances of the theorems.
mod Samples
mod Injection
mod Admission
mod Nodes
mod Gpu
mod Reconciliation
mod Updates
mod WebhookObjects
mod Secrets
mod OpenAgent
mod NodePods
