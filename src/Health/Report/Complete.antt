-- ===== src/Health/Report/Complete.antt =====
-- internal/health/cluster.go: a report that is not truncated lists every problem.
use kube_sre_mcp.Prelude.{ℕ, ◌+◌, ◌≡◌, String, Bool, false, Option, none, some, List, arith}
use kube_sre_mcp.Prelude.Int.{ℤ}
use kube_sre_mcp.Model.{Health}
use kube_sre_mcp.Health.Report.{Item, Inventory, scan}
use kube_sre_mcp.Health.Report.Cluster.{Lists, cluster, problem_limit, items_of}
use kube_sre_mcp.Health.Report.Bounds.{problems, unhealthy, visit_all_complete}

-- how many of the listed items are not healthy
abbrev pub unhealthy_in : Option (List Item) → ℕ
unhealthy_in none = 0
unhealthy_in (some is) = unhealthy is

scan_complete :
    (limit : ℕ) (listed : Bool) (kind : String) (priority : Health → ℕ) (is : Option (List Item))
    (inv : Inventory)
    → (scan limit listed kind priority is inv).report.truncated ≡ false
    → (inv.report.truncated ≡ false)
      × (problems (scan limit listed kind priority is inv).report
          ≡ problems inv.report + unhealthy_in is)
unfolding scan
scan_complete limit listed kind priority none inv h = (h, omega arith)
scan_complete limit listed kind priority (some is) inv h =
    visit_all_complete limit listed kind priority is _ h

-- If the report is not truncated, the number of its problems is that of all unhealthy objects in the
-- lists that the API answered.
pub cluster_complete :
    (max_problems : ℤ) (include_healthy : Bool) (lists : Lists)
    → (cluster max_problems include_healthy lists).1.report.truncated ≡ false
    → let i = items_of lists in
      problems (cluster max_problems include_healthy lists).1.report
      ≡ unhealthy_in i.nodes
        + unhealthy_in i.pods
        + unhealthy_in i.deployments
        + unhealthy_in i.stateful_sets
        + unhealthy_in i.daemon_sets
        + unhealthy_in i.jobs
        + unhealthy_in i.claims
unfolding cluster
cluster_complete m h l e =
    let k = problem_limit m in
    let i = items_of l in
    let c = scan_complete k false _ _ i.claims _ e in
    let j = scan_complete k false _ _ i.jobs _ c.0 in
    let ds = scan_complete k false _ _ i.daemon_sets _ j.0 in
    let s = scan_complete k false _ _ i.stateful_sets _ ds.0 in
    let d = scan_complete k h _ _ i.deployments _ s.0 in
    let p = scan_complete k h _ _ i.pods _ d.0 in
    let n = scan_complete k h _ _ i.nodes _ p.0 in omega (arith, c.1, j.1, ds.1, s.1, d.1, p.1, n.1)
