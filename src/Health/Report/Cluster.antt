-- ===== src/Health/Report/Cluster.antt =====
-- internal/health/cluster.go: the seven lists of the inventory, and the health that comes of them.
use mathlib.Core.Option
use kube_sre_mcp.Prelude.{
  ℕ, suc, ◌+◌, map, String, Bool, false, ◌&&◌, Option, none, some, List, [], ◌∷◌, ◌==◌,
  if◌then◌else◌,
}
use kube_sre_mcp.Prelude.Int.{ℤ, pos}
use kube_sre_mcp.Model.{Health}
use kube_sre_mcp.Kube.Types.{Pod, Node}
use kube_sre_mcp.Health.{health_eq, combine, from_counts, from_pod, from_node}
use kube_sre_mcp.Health.Report.{
  Replicated, Job, Claim, Counts, Item, Inventory, part_health, job_health, no_counts, scan,
  was_listed,
}

abbrev pub item : String → String → String → Health → Item
item kind name namespace health = record {
  kind = kind;
  name = name;
  namespace = namespace;
  health = health;
}

abbrev pub node_item : Node → Item
node_item n = item "Node" n.name "" (from_node n)

-- the pods that have not succeeded
unfoldable pub pod_items : List Pod → List Item
pod_items [] = []
pod_items (p ∷ ps) =
    let rest = pod_items ps in
    if p.phase == "Succeeded" then rest else item "Pod" p.name p.namespace (from_pod p) ∷ rest

abbrev desired : Option ℤ → ℤ
desired none = pos 1
desired (some n) = n

abbrev pub replicated_item : String → Replicated → Item
replicated_item kind d =
    item kind d.name d.namespace (from_counts (desired d.replicas) d.ready false)

abbrev pub job_item : Job → Item
job_item j = item "Job" j.name j.namespace (job_health j)

abbrev pub claim_item : Claim → Item
claim_item c =
    item "PVC" c.name c.namespace (if c.phase == "Bound" then Health.healthy else Health.critical)

-- the answers of the API to the seven requests; `none` is an error
pub record Lists : Type 0 where
  pub nodes : Option (List Node)
  pub pods : Option (List Pod)
  pub deployments : Option (List Replicated)
  pub stateful_sets : Option (List Replicated)
  pub daemon_sets : Option (List Replicated)
  pub jobs : Option (List Job)
  pub claims : Option (List Claim)

abbrev priority_of : ℕ → ℕ → Health → ℕ
priority_of critical other h = if health_eq h Health.critical then critical else other

abbrev pub add_counts : Counts → Counts → Counts
add_counts a b = record { total = a.total + b.total; healthy = a.healthy + b.healthy }

abbrev empty_inventory : Inventory
empty_inventory = record {
  counts = no_counts;
  report = record {
    critical_issues = [];
    warnings = [];
    healthy_resources = [];
    truncated = false;
  };
  candidates = [];
}

abbrev pub problem_limit : ℤ → ℕ
problem_limit (pos (suc n)) = suc n
problem_limit _ = 50

-- the seven lists as items
pub record Items : Type 0 where
  pub nodes : Option (List Item)
  pub pods : Option (List Item)
  pub deployments : Option (List Item)
  pub stateful_sets : Option (List Item)
  pub daemon_sets : Option (List Item)
  pub jobs : Option (List Item)
  pub claims : Option (List Item)

unfoldable pub items_of : Lists → Items
unfolding pod_items
items_of l = record {
  nodes = Option.map (map node_item) l.nodes;
  pods = Option.map pod_items l.pods;
  deployments = Option.map (map (replicated_item "Deployment")) l.deployments;
  stateful_sets = Option.map (map (replicated_item "StatefulSet")) l.stateful_sets;
  daemon_sets = Option.map (map (replicated_item "DaemonSet")) l.daemon_sets;
  jobs = Option.map (map job_item) l.jobs;
  claims = Option.map (map claim_item) l.claims;
}

-- Cluster, up to the deep diagnoses: the health, the report and the candidates
unfoldable pub cluster : ℤ → Bool → Lists → Health × Inventory
unfolding scan items_of part_health combine
cluster max_problems include_healthy lists =
    let limit = problem_limit max_problems in
    let l = items_of lists in
    let n = scan limit include_healthy "Node" (priority_of 2 3) l.nodes empty_inventory in
    let p = scan limit include_healthy "Pod" (λ _. 5) l.pods n in
    let d = scan limit include_healthy "Deployment" (priority_of 0 3) l.deployments p in
    let s = scan limit false "StatefulSet" (priority_of 0 3) l.stateful_sets d in
    let ds = scan limit false "DaemonSet" (priority_of 0 3) l.daemon_sets s in
    let j = scan limit false "Job" (priority_of 1 3) l.jobs ds in
    let c = scan limit false "PersistentVolumeClaim" (λ _. 4) l.claims j in
    let workloads = add_counts (add_counts (add_counts d.counts s.counts) ds.counts) j.counts in
    let workloads_ok =
      was_listed l.deployments
      && was_listed l.stateful_sets
      && was_listed l.daemon_sets
      && was_listed l.jobs in
    (
      combine (
          part_health n.counts (was_listed l.nodes)
          ∷ part_health p.counts (was_listed l.pods)
          ∷ part_health workloads workloads_ok
          ∷ part_health c.counts (was_listed l.claims)
          ∷ []),
      c,
    )
