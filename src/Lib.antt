-- ===== src/Lib.antt =====
-- The Whatap operator: a Kubernetes operator that installs monitoring agents (internal/controller)
-- and, by admission webhooks, puts APM agents into the pods of applications
-- (internal/webhook/v2alpha1). Both read one WhatapAgent resource (api/v2alpha1).
--
-- The parts and their files:
--
--   Env: corev1.EnvVar lists, and findEnvValueByKeys, mergeEnvVars, upsertEnvVars and
--   combineEnvVars of internal/webhook/v2alpha1/utils.go. Env/Entries, Env/Merge and Env/Combine
--   hold what is in force for a name afterwards, and how often it is there.
--   Webhook/Names and Webhook/Types: constants.go and the name sets of utils.go; the fields of
--   api/v2alpha1/whatapagent_types.go that the webhooks read, the pod types that they write, and
--   internal/config/env.go.
--   Webhook/Selector: matchesSelector and matchesNamespaceSelector of utils.go.
--   Webhook/Injector: injector_java.go, injector_python.go, injector_nodejs.go and
--   injectLanguageSpecificEnvVars, which picks one by the target's language and then overlays the
--   target's own variables.
--   Webhook/InitContainer and Webhook/Patch: createAgentInitContainers and patchPodTemplateSpec of
--   process_deployments.go; the second calls the first and, for each container, the injector.
--   Webhook/Defaulter and Webhook/Validator: the webhooks of whatapagent_webhook.go. The defaulter
--   looks for the first target whose selectors match and patches the pod once.
--   GpuMemCheck: internal/controller/gpu_mem_check.go, the restart of pods whose dcgm-exporter
--   container is near its memory limit.
--   NodeAgent: createOrUpdateNodeAgent, negateNodeSelectorTerm and the placement part of
--   reconcileNodeAgentDaemonSet of internal/controller/install_agents.go. In GPU mode two
--   DaemonSets share out the nodes.
--   NodeAgent/Types, NodeAgent/DaemonSet, NodeAgent/Dcgm and NodeAgent/Pod:
--   getNodeAgentDaemonSetSpec, addDcgmExporterToNodeAgent and ensureDcgmExporterService;
--   NodeAgent/Pod/Labels sets them against the scrape configuration of the OpenAgent, which looks for
--   these pods.
--   MasterAgent: getMasterAgentDeploymentSpec, with the image and the resources that
--   createOrUpdateMasterAgent gives it.
--   Workload: setDefaultResource, applyContainerDefaults, mergePodSpec and the merging of the
--   wanted pod template with the present one, in createOrUpdateMasterAgent,
--   reconcileNodeAgentDaemonSet and installOpenAgent.
--   Controller: Reconcile and the cleanups of internal/controller/whatapagent_controller.go;
--   Controller/WebhookObjects: the secret, the service and the webhook configuration that it writes.
--   OpenAgent/Yaml: toOrderedYAML of install_agents.go, which removes Go's map order from values.
--   OpenAgent/Types, OpenAgent/Convert, OpenAgent/Targets, OpenAgent/Gpu, OpenAgent/LabelName and
--   OpenAgent/Scrape: generateScrapeConfig with the functions that it calls, and the types of
--   whatapagent_types.go, whatappodmonitor_types.go, whatapservicemonitor_types.go and
--   whatapstaticendpoint_types.go that it reads. A target is built as a map (Targets), ordered
--   (Yaml), and looked at by the check for duplicates (Gpu).
--   TlsSecrets: collectAllTLSSecrets of install_agents.go, which says what the OpenAgent mounts.
--   OpenAgent/Deployment and OpenAgent/Install: the pod of the OpenAgent and installOpenAgent, which
--   lists the monitors, applies the configuration and then the Deployment.
--   Prelude: names of the libraries, Boolean tests, lists and maps. Tests: runs on samples.
--
-- Functions keep their Go names in snake case. A nil pointer is `none`; a nil map or slice is the
-- empty one, except where the code tells nil apart (the node selector of the GPU agent, the
-- resource's optional settings). A map is a list of keys and values whose order is not used; where
-- Go ranges over one, the order is a parameter (Workload) or the keys are taken in their given
-- order (the negated node selector in NodeAgent, where the order of alternatives has no meaning).
-- Quantities are texts; the byte counts of GpuMemCheck are numbers below 2 ^ 64, whose subtraction
-- wraps. In NodeAgent the affinity of the resource is a state that each placement
-- passes on, since the template and the resource share it behind one pointer. Loops are structural
-- recursion over the lists that Go ranges over, so no fuel is needed, except for the retries of
-- installOpenAgent: there the fuel is three, which is the number of attempts that the loop allows.
--
-- Parameters, for what is not in the repository: the API server's answers (Defaulter, Controller,
-- OpenAgent/Install), the error of SetControllerReference (Controller/WebhookObjects), the HTTP
-- answers and the parsing of quantities (`Outside`), float64 with monotone operations and its decimal
-- literals (`Float64`, GpuMemCheck), fmt and regexp.QuoteMeta (NodeAgent/Dcgm), yaml.Marshal (OpenAgent/Scrape), and the
-- meaning of node selectors as Kubernetes documents it (`Scheduler`, NodeAgent/Nodes). Tests gives
-- an instance of each.
--
-- Not modelled: logging and events' texts; how the certificates of the webhooks are made; ports,
-- probes, rollout strategies and other constant fields of pods; the control plane monitors, whose
-- functions are empty, and which Controller sees as one action each; cmd/main.go
-- and generated code; two functions that nothing calls (wrapPythonCommand,
-- injectBasicKubernetesEnvVars); WhatapAgentCredentialDefaulter,
-- which changes nothing.

pub mod Prelude
pub mod Env
pub mod Webhook
pub mod GpuMemCheck
pub mod NodeAgent
pub mod MasterAgent
pub mod OpenAgent
pub mod Workload
pub mod Controller
pub mod TlsSecrets
pub mod Tests
