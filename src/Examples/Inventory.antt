-- ===== src/Examples/Inventory.antt =====
-- internal/health: the small cluster's inventory.
use kube_sre_mcp.Prelude.{
  ◌≡◌, ◌+◌, ◌↔◌, refl, true, false, ◌&&◌, ◌||◌, none, some, [], ◌∷◌, all, ◌==◌,
}
use kube_sre_mcp.Prelude.Int.{pos}
use kube_sre_mcp.Model.{Health, Visibility}
use kube_sre_mcp.Signal.{new}
use kube_sre_mcp.Kube.Types.{Node}
use kube_sre_mcp.Health.{healthy_condition, all_statuses, from_node, from_pod}
use kube_sre_mcp.Health.Verdicts.{from_node_iff}
use kube_sre_mcp.Health.Pods.{is_clean, phase_ok, from_pod_healthy_iff}
use kube_sre_mcp.Health.Report.{visit}
use kube_sre_mcp.Health.Report.Cluster.{Lists, items_of, cluster, problem_limit}
use kube_sre_mcp.Health.Report.Bounds.{problems, IsBounded, cluster-IsBounded}
use kube_sre_mcp.Health.Report.Complete.{unhealthy_in, cluster_complete}
use kube_sre_mcp.Health.Report.Verdict.{all_healthy, cluster_healthy_iff}
use kube_sre_mcp.Examples.Cluster.{web_pod, worker}

abbrev hidden : Visibility
hidden = record { complete = false; limited = true; missing_permissions = []; failed_checks = [] }

abbrev cordoned : Node
cordoned = record (worker "b") { unschedulable = true }

abbrev lists : Lists
lists = record {
  nodes = some (worker "a" ∷ cordoned ∷ []);
  pods = some (web_pod ∷ []);
  deployments = some [];
  stateful_sets = some [];
  daemon_sets = some [];
  jobs = some [];
  claims = none;
}

from_node_iff_example :
    ((from_node cordoned ≡ Health.critical) ↔ (all healthy_condition cordoned.conditions ≡ false))
    × (((from_node cordoned ≡ Health.degraded)
          ↔ ((all healthy_condition cordoned.conditions ≡ true) × (cordoned.unschedulable ≡ true)))
        × ((from_node cordoned ≡ Health.healthy) ↔ (
            (all healthy_condition cordoned.conditions ≡ true) × (cordoned.unschedulable ≡ false))))
from_node_iff_example = from_node_iff cordoned

from_pod_healthy_iff_example : (from_pod web_pod ≡ Health.healthy) ↔ (
    web_pod.phase == "Succeeded"
      || (phase_ok web_pod.phase
          && all (is_clean (web_pod.phase == "Running")) (all_statuses web_pod))
    ≡ true)
from_pod_healthy_iff_example = from_pod_healthy_iff web_pod

cluster_healthy_iff_example :
    let i = items_of lists in
    ((cluster (pos 10) true lists).0 ≡ Health.healthy) ↔ (
      all_healthy i.nodes
        && all_healthy i.pods
        && all_healthy i.deployments
        && all_healthy i.stateful_sets
        && all_healthy i.daemon_sets
        && all_healthy i.jobs
        && all_healthy i.claims
      ≡ true)
cluster_healthy_iff_example = cluster_healthy_iff (pos 10) true lists

cluster-IsBounded_example :
    IsBounded (problem_limit (pos 10)) (cluster (pos 10) true lists).1.report
cluster-IsBounded_example = cluster-IsBounded (pos 10) true lists

not_truncated : (cluster (pos 10) true lists).1.report.truncated ≡ false
unfolding cluster visit from_pod from_node new
not_truncated = refl

cluster_complete_example :
    let i = items_of lists in
    problems (cluster (pos 10) true lists).1.report
    ≡ unhealthy_in i.nodes
      + unhealthy_in i.pods
      + unhealthy_in i.deployments
      + unhealthy_in i.stateful_sets
      + unhealthy_in i.daemon_sets
      + unhealthy_in i.jobs
      + unhealthy_in i.claims
cluster_complete_example = cluster_complete (pos 10) true lists not_truncated
