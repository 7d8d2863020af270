-- ===== src/Config.antt =====
-- internal/config/config.go
pub mod Safe
use kube_sre_mcp.Prelude.{
  ℕ, String, Bool, true, false, Option, none, some, ◌==◌, if◌then◌else◌, ltb, ◌+◌, ◌*◌, ◌^◌, ◌-◌,
  ◌%◌,
}
use kube_sre_mcp.Prelude.Int.{ℤ, pos, negsuc, ℤ_lt, is_negative}

-- durations are in nanoseconds
pub record Config : Type 0 where
  pub kubeconfig : String
  pub context : String
  pub log_level : String
  pub actions_enabled : Bool
  pub max_graph_depth : ℤ
  pub max_graph_nodes : ℤ
  pub max_deep_pods : ℤ
  pub max_events : ℤ
  pub max_log_lines : ℤ
  pub api_timeout : ℤ
  pub diagnostic_timeout : ℤ
  pub max_concurrent_k8s : ℤ
  pub max_replicas : ℤ
  pub metrics_listen : String
  pub confirmation_ttl : ℤ
  pub prefix_match : Bool
  pub max_cluster_deep_diagnoses : ℤ

-- the process environment, and strconv.Atoi and strconv.ParseBool, where `none` is their error
pub record Environment : Type 0 where
  pub getenv : String → String
  pub atoi : String → Option ℤ
  pub parse_bool : String → Option Bool

abbrev pub max_int32 : ℤ
max_int32 = pos (2 ^ 31 - 1)

module _ (e : Environment) where
  unfoldable pub env : String → String → String
  env key def = if e.getenv key == "" then def else e.getenv key

  unfoldable pub env_int : String → ℤ → ℤ
  env_int key def =
      if e.getenv key == "" then def else elim (e.atoi (e.getenv key)) [ none ↦ def | some n ↦ n ]

  unfoldable pub env_int32 : String → ℤ → ℤ
  unfolding env_int
  env_int32 key def =
      let n = env_int key def in
      if is_negative n then def else if ℤ_lt max_int32 n then max_int32 else n

  unfoldable pub env_bool : String → Bool → Bool
  env_bool key def =
      if e.getenv key == ""
      then def
      else elim (e.parse_bool (e.getenv key)) [ none ↦ def | some b ↦ b ]

-- the value of an int64 with these bits
abbrev signed : ℕ → ℤ
signed m = if ltb m (2 ^ 63) then pos m else negsuc (2 ^ 64 - m - 1)

-- time.Duration(n) * time.Second, which wraps around
unfoldable pub seconds : ℤ → ℤ
seconds (pos n) = signed (n * 10 ^ 9 % 2 ^ 64)
seconds (negsuc n) = signed ((2 ^ 64 - (n + 1) * 10 ^ 9 % 2 ^ 64) % 2 ^ 64)

-- Load
unfoldable pub load : Environment → Config
unfolding env env_int env_int32 env_bool seconds
load e = record {
  kubeconfig = env e "KUBECONFIG" "";
  context = env e "KUBE_SRE_MCP_CONTEXT" "";
  log_level = env e "KUBE_SRE_MCP_LOG_LEVEL" "info";
  actions_enabled = env_bool e "KUBE_SRE_MCP_ACTIONS_ENABLED" false;
  max_graph_depth = env_int e "KUBE_SRE_MCP_MAX_GRAPH_DEPTH" (pos 6);
  max_graph_nodes = env_int e "KUBE_SRE_MCP_MAX_GRAPH_NODES" (pos 80);
  max_deep_pods = env_int e "KUBE_SRE_MCP_MAX_DEEP_PODS" (pos 8);
  max_events = env_int e "KUBE_SRE_MCP_MAX_EVENTS" (pos 50);
  max_log_lines = env_int e "KUBE_SRE_MCP_MAX_LOG_LINES" (pos 200);
  api_timeout = seconds (env_int e "KUBE_SRE_MCP_API_TIMEOUT_SECONDS" (pos 15));
  diagnostic_timeout = seconds (env_int e "KUBE_SRE_MCP_DIAGNOSTIC_TIMEOUT" (pos 45));
  max_concurrent_k8s = env_int e "KUBE_SRE_MCP_MAX_CONCURRENT_K8S" (pos 8);
  max_replicas = env_int32 e "KUBE_SRE_MCP_MAX_REPLICAS" (pos 100);
  metrics_listen = env e "KUBE_SRE_MCP_METRICS_LISTEN" "";
  confirmation_ttl = seconds (env_int e "KUBE_SRE_MCP_CONFIRMATION_TTL_SECONDS" (pos 120));
  prefix_match = env_bool e "KUBE_SRE_MCP_PREFIX_MATCH" true;
  max_cluster_deep_diagnoses = env_int e "KUBE_SRE_MCP_MAX_CLUSTER_DEEP_DIAGNOSES" (pos 8);
}
