-- ===== src/Webhook/Names.antt =====
-- The names and values of internal/webhook/v2alpha1/constants.go, and the name sets of utils.go.
use whatap_operator.Prelude.{String, List, [], ◌∷◌}

abbrev pub env_whatap_license : String
env_whatap_license = "WHATAP_LICENSE"

abbrev pub env_whatap_host : String
env_whatap_host = "WHATAP_HOST"

abbrev pub env_whatap_port : String
env_whatap_port = "WHATAP_PORT"

abbrev pub env_node_ip : String
env_node_ip = "NODE_IP"

abbrev pub env_node_name : String
env_node_name = "NODE_NAME"

abbrev pub env_pod_name : String
env_pod_name = "POD_NAME"

abbrev pub env_whatap_micro_enabled : String
env_whatap_micro_enabled = "whatap.micro.enabled"

abbrev pub val_true : String
val_true = "true"

abbrev pub env_java_license : String
env_java_license = "license"

abbrev pub env_java_whatap_host : String
env_java_whatap_host = "whatap.server.host"

abbrev pub env_java_whatap_port : String
env_java_whatap_port = "whatap.server.port"

abbrev pub env_java_agent_path : String
env_java_agent_path = "WHATAP_JAVA_AGENT_PATH"

abbrev pub env_java_tool_options : String
env_java_tool_options = "JAVA_TOOL_OPTIONS"

abbrev pub val_java_agent_path : String
val_java_agent_path = "/whatap-agent/whatap.agent.java.jar"

abbrev pub val_java_agent_option_prefix : String
val_java_agent_option_prefix = "-javaagent:"

abbrev pub env_python_license : String
env_python_license = "license"

abbrev pub env_python_whatap_host : String
env_python_whatap_host = "whatap_server_host"

abbrev pub env_python_whatap_port : String
env_python_whatap_port = "whatap_server_port"

abbrev pub env_python_agent_path : String
env_python_agent_path = "WHATAP_PYTHON_AGENT_PATH"

abbrev pub env_whatap_home : String
env_whatap_home = "WHATAP_HOME"

abbrev pub env_app_name : String
env_app_name = "app_name"

abbrev pub env_app_process_name : String
env_app_process_name = "app_process_name"

abbrev pub env_okind : String
env_okind = "OKIND"

abbrev pub env_python_path : String
env_python_path = "PYTHONPATH"

abbrev pub val_whatap_home : String
val_whatap_home = "/whatap-agent"

abbrev pub val_python_bootstrap : String
val_python_bootstrap = "/whatap-agent/whatap/bootstrap"

abbrev pub val_python_agent_path : String
val_python_agent_path = "/whatap-agent/whatap_python"

abbrev pub env_nodejs_license : String
env_nodejs_license = "WHATAP_LICENSE"

abbrev pub env_nodejs_whatap_host : String
env_nodejs_whatap_host = "WHATAP_SERVER_HOST"

abbrev pub env_nodejs_whatap_port : String
env_nodejs_whatap_port = "WHATAP_SERVER_PORT"

abbrev pub env_nodejs_agent_path : String
env_nodejs_agent_path = "WHATAP_NODEJS_AGENT_PATH"

abbrev pub env_nodejs_options : String
env_nodejs_options = "NODE_OPTIONS"

abbrev pub env_nodejs_path : String
env_nodejs_path = "NODE_PATH"

abbrev pub val_nodejs_agent_path : String
val_nodejs_agent_path = "/whatap-agent/node_modules/whatap/agent/whatap_nodejs"

abbrev pub val_nodejs_modules : String
val_nodejs_modules = "/whatap-agent/node_modules"

abbrev pub val_nodejs_require : String
val_nodejs_require = "-r whatap"

abbrev pub init_container_name : String
init_container_name = "whatap-agent-init"

abbrev pub volume_name_whatap_agent : String
volume_name_whatap_agent = "whatap-agent-volume"

abbrev pub mount_path_whatap_agent : String
mount_path_whatap_agent = "/whatap-agent"

-- The sets of names that toNameSet builds.
abbrev pub python_force_env_names : List String
python_force_env_names =
    env_python_license ∷ env_python_whatap_host ∷ env_python_whatap_port ∷ env_whatap_home
    ∷ env_whatap_micro_enabled ∷ env_node_ip ∷ env_node_name ∷ env_pod_name ∷ []

abbrev pub nodejs_force_env_names : List String
nodejs_force_env_names =
    env_nodejs_license ∷ env_nodejs_whatap_host ∷ env_nodejs_whatap_port ∷ env_whatap_home
    ∷ env_whatap_micro_enabled ∷ env_node_ip ∷ env_node_name ∷ env_pod_name ∷ []

abbrev pub operator_managed_env_names : List String
operator_managed_env_names =
    env_whatap_license ∷ env_whatap_host ∷ env_whatap_port ∷ env_node_ip ∷ env_node_name
    ∷ env_pod_name ∷ env_whatap_micro_enabled ∷ env_java_license ∷ env_java_whatap_host
    ∷ env_java_whatap_port ∷ env_java_agent_path ∷ env_java_tool_options ∷ env_python_license
    ∷ env_python_whatap_host ∷ env_python_whatap_port ∷ env_python_agent_path ∷ env_whatap_home
    ∷ env_python_path ∷ env_app_name ∷ env_app_process_name ∷ env_okind ∷ env_nodejs_license
    ∷ env_nodejs_whatap_host ∷ env_nodejs_whatap_port ∷ env_nodejs_agent_path ∷ env_nodejs_options
    ∷ env_nodejs_path ∷ []
