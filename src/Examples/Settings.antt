-- ===== src/Examples/Settings.antt =====
-- internal/config/config.go: an environment that enables the actions.
use kube_sre_mcp.Prelude.{ℕ, ◌≤◌, ◌^◌, ◌-◌, ◌≡◌, ◌↔◌, true, false, none, some, ◌==◌, if◌then◌else◌}
use kube_sre_mcp.Prelude.Int.{pos}
use kube_sre_mcp.Config.{Environment, load}
use kube_sre_mcp.Config.Safe.{load_safe}

abbrev enabling : Environment
enabling = record {
  getenv = λ key. if key == "KUBE_SRE_MCP_ACTIONS_ENABLED" then "1" else "";
  atoi = λ _. none;
  parse_bool = λ text. if text == "1" then some true else none;
}

load_safe_example :
    ((k : ℕ) × ((load enabling).max_replicas ≡ pos k) × (k ≤ 2 ^ 31 - 1))
    × (((load enabling).actions_enabled ≡ true) ↔ (
        (enabling.getenv "KUBE_SRE_MCP_ACTIONS_ENABLED" == "" ≡ false)
        × (enabling.parse_bool (enabling.getenv "KUBE_SRE_MCP_ACTIONS_ENABLED") ≡ some true)))
load_safe_example = load_safe enabling
