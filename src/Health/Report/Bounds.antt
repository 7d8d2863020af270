-- ===== src/Health/Report/Bounds.antt =====
-- internal/health/cluster.go: the limit on the problems that the report lists.
use kube_sre_mcp.Prelude.{
  ℕ, suc, ◌+◌, ◌≤◌, ◌≡◌, String, Bool, false, Option, none, some, List, [], ◌∷◌, arith, length,
  length-append, if◌then◌else◌,
}
use kube_sre_mcp.Prelude.Int.{ℤ}
use kube_sre_mcp.Model.{Health}
use kube_sre_mcp.Health.{health_eq}
use kube_sre_mcp.Health.Report.{
  Item, ClusterReport, Inventory, push_issue, push_healthy, visit, visit_all, scan,
}
use kube_sre_mcp.Health.Report.Cluster.{Lists, cluster, problem_limit, items_of}

-- the problems of a report
abbrev pub problems : ClusterReport → ℕ
problems rep = length rep.critical_issues + length rep.warnings

-- within the limit
abbrev pub IsBounded : ℕ → ClusterReport → Type 0
IsBounded limit rep = (problems rep ≤ limit) × (length rep.healthy_resources ≤ limit)

-- how many items are not healthy
unfoldable pub unhealthy : List Item → ℕ
unhealthy [] = 0
unhealthy (i ∷ is) = (if health_eq i.health Health.healthy then 0 else 1) + unhealthy is

push_issue-bound :
    (limit : ℕ) (i : Item) (rep : ClusterReport)
    → IsBounded limit rep
    → IsBounded limit (push_issue limit i rep)
unfolding push_issue
push_issue-bound limit i rep h =
    ground (arith, length-append rep.critical_issues (i ∷ []), length-append rep.warnings (i ∷ []))

push_issue_complete :
    (limit : ℕ) (i : Item) (rep : ClusterReport)
    → (push_issue limit i rep).truncated ≡ false
    → (rep.truncated ≡ false) × (problems (push_issue limit i rep) ≡ suc (problems rep))
unfolding push_issue
push_issue_complete limit i rep h =
    ground (arith, length-append rep.critical_issues (i ∷ []), length-append rep.warnings (i ∷ []))

push_healthy-bound :
    (limit : ℕ) (i : Item) (rep : ClusterReport)
    → IsBounded limit rep
    → IsBounded limit (push_healthy limit i rep)
unfolding push_healthy
push_healthy-bound limit i rep h = ground (arith, length-append rep.healthy_resources (i ∷ []))

push_healthy_complete :
    (limit : ℕ) (i : Item) (rep : ClusterReport)
    → (push_healthy limit i rep).truncated ≡ false
    → (rep.truncated ≡ false) × (problems (push_healthy limit i rep) ≡ problems rep)
unfolding push_healthy
push_healthy_complete limit i rep h = ground arith

module _ (limit : ℕ) (listed : Bool) (kind : String) (priority : Health → ℕ) where
  visit-bound :
      (i : Item) (inv : Inventory)
      → IsBounded limit inv.report
      → IsBounded limit (visit limit listed kind priority i inv).report
  unfolding visit
  visit-bound i inv h =
      ground (arith, push_issue-bound limit i inv.report h, push_healthy-bound limit i inv.report h)

  visit_all-bound :
      (is : List Item) (inv : Inventory)
      → IsBounded limit inv.report
      → IsBounded limit (visit_all limit listed kind priority is inv).report
  unfolding visit_all
  visit_all-bound [] inv h = h
  visit_all-bound (i ∷ is) inv h =
      visit_all-bound is (visit limit listed kind priority i inv) (visit-bound i inv h)

  scan-bound :
      (is : Option (List Item)) (inv : Inventory)
      → IsBounded limit inv.report
      → IsBounded limit (scan limit listed kind priority is inv).report
  unfolding scan
  scan-bound none inv h = h
  scan-bound (some is) inv h = visit_all-bound is _ h

  visit_complete :
      (i : Item) (inv : Inventory)
      → (visit limit listed kind priority i inv).report.truncated ≡ false
      → (inv.report.truncated ≡ false)
        × (problems (visit limit listed kind priority i inv).report
            ≡ problems inv.report + unhealthy (i ∷ []))
  unfolding visit unhealthy
  visit_complete i inv h =
      ground
        (arith, push_issue_complete limit i inv.report, push_healthy_complete limit i inv.report)

  pub visit_all_complete :
      (is : List Item) (inv : Inventory)
      → (visit_all limit listed kind priority is inv).report.truncated ≡ false
      → (inv.report.truncated ≡ false)
        × (problems (visit_all limit listed kind priority is inv).report
            ≡ problems inv.report + unhealthy is)
  unfolding visit_all unhealthy
  visit_all_complete [] inv h = (h, omega arith)
  visit_all_complete (i ∷ is) inv h =
      let rest = visit_all_complete is (visit limit listed kind priority i inv) h in
      let one = visit_complete i inv rest.0 in
      (one.0, unfold unhealthy in omega (arith, rest.1, one.1))

-- However many objects there are, the report of the cluster lists at most the limit of problems, and
-- at most the limit of healthy resources.
pub cluster-IsBounded :
    (max_problems : ℤ) (include_healthy : Bool) (lists : Lists)
    → IsBounded (problem_limit max_problems) (cluster max_problems include_healthy lists).1.report
unfolding cluster
cluster-IsBounded m h l =
    let k = problem_limit m in
    let i = items_of l in
    scan-bound k false _ _ i.claims _ (
      scan-bound k false _ _ i.jobs _ (
        scan-bound k false _ _ i.daemon_sets _ (
          scan-bound k false _ _ i.stateful_sets _ (
            scan-bound k h _ _ i.deployments _ (
              scan-bound k h _ _ i.pods _
                (scan-bound k h _ _ i.nodes _ (omega arith, omega arith)))))))
