-- ===== src/Health/Report.antt =====
-- internal/health/cluster.go: the inventory of the cluster, without the deep diagnoses. An item of the
-- report keeps its kind, name, namespace and health; the other entries of the maps are not read again.
pub mod Bounds
pub mod Cluster
pub mod Complete
pub mod Verdict
use kube_sre_mcp.Prelude.{
  ℕ, suc, ◌+◌, ◌-◌, map, String, Bool, true, false, not, ◌&&◌, ◌||◌, Option, none, some, List, [],
  ◌∷◌, ◌++◌, ◌==◌, length, take, eqb, ltb, leb, any, if◌then◌else◌,
}
use kube_sre_mcp.Prelude.Int.{ℤ, pos, ℤ_eq, ℤ_lt}
use kube_sre_mcp.Prelude.Text.{text_lt}
use kube_sre_mcp.Prelude.Sort.{stable_sort}
use kube_sre_mcp.Model.{Health}
use kube_sre_mcp.Kube.Types.{Terminated, ContainerStatus, Pod, Condition, Node}
use kube_sre_mcp.Health.{health_eq, combine, from_counts, from_pod, from_node, all_statuses}

-- a Deployment, a StatefulSet or a DaemonSet, whose count is always there
pub record Replicated : Type 0 where
  pub name : String
  pub namespace : String
  pub replicas : Option ℤ
  pub ready : ℤ

pub record Job : Type 0 where
  pub name : String
  pub namespace : String
  pub conditions : List Condition
  pub succeeded : ℤ
  pub failed : ℤ

pub record Claim : Type 0 where
  pub name : String
  pub namespace : String
  pub phase : String

pub record Counts : Type 0 where
  pub total : ℕ
  pub healthy : ℕ

-- a problem, or a healthy resource, as the report lists it
pub record Item : Type 0 where
  pub kind : String
  pub name : String
  pub namespace : String
  pub health : Health

pub record Candidate : Type 0 where
  pub kind : String
  pub name : String
  pub namespace : String
  pub health : Health
  pub priority : ℕ

pub record ClusterReport : Type 0 where
  pub critical_issues : List Item
  pub warnings : List Item
  pub healthy_resources : List Item
  pub truncated : Bool

-- partHealth
unfoldable pub part_health : Counts → Bool → Health
part_health c listed_ok =
    if not listed_ok
    then Health.unknown
    else if eqb c.total 0
    then Health.healthy
    else if eqb c.healthy 0
    then Health.critical
    else if ltb c.healthy c.total
    then Health.degraded
    else Health.healthy

-- pushIssue
unfoldable pub push_issue : ℕ → Item → ClusterReport → ClusterReport
push_issue limit item rep =
    if leb limit (length rep.critical_issues + length rep.warnings)
    then record rep { truncated = true }
    else if health_eq item.health Health.critical
    then record rep { critical_issues = rep.critical_issues ++ item ∷ [] }
    else record rep { warnings = rep.warnings ++ item ∷ [] }

-- pushHealthy
unfoldable pub push_healthy : ℕ → Item → ClusterReport → ClusterReport
push_healthy limit item rep =
    if leb limit (length rep.healthy_resources)
    then record rep { truncated = true }
    else record rep { healthy_resources = rep.healthy_resources ++ item ∷ [] }

-- jobHealth
unfoldable pub job_health : Job → Health
job_health j =
    if any (λ c. c.type == "Failed" && c.status == "True") j.conditions
    then Health.critical
    else if ℤ_eq j.succeeded (pos 0) && ℤ_lt (pos 0) j.failed
    then Health.critical
    else Health.healthy

abbrev ended_reason : Option Terminated → Option String
ended_reason none = none
ended_reason (some t) = if not (t.reason == "") then some t.reason else none

abbrev stated_reason : Option String → Option Terminated → Option String
stated_reason none ended = ended_reason ended
stated_reason (some r) ended = if not (r == "") then some r else ended_reason ended

first_reason : String → List ContainerStatus → String
first_reason phase [] = phase
first_reason phase (cs ∷ css) =
    let rest = first_reason phase css in
    elim (stated_reason cs.waiting cs.terminated) [ none ↦ rest | some r ↦ r ]

-- DominantWaiting
unfoldable pub dominant_waiting : Pod → String
unfolding first_reason
dominant_waiting p = first_reason p.phase (all_statuses p)

-- what the loops over the lists share: the counts, the report and the candidates
pub record Inventory : Type 0 where
  pub counts : Counts
  pub report : ClusterReport
  pub candidates : List Candidate

-- one round of a loop, on an object that is shown as `item`; `listed` tells whether the loop lists
-- what is healthy, `kind` is the kind of a candidate
unfoldable pub visit : ℕ → Bool → String → (Health → ℕ) → Item → Inventory → Inventory
unfolding push_issue push_healthy
visit limit listed kind priority item inv =
    if health_eq item.health Health.healthy
    then record inv {
      counts = record { total = suc inv.counts.total; healthy = suc inv.counts.healthy };
      report = if listed then push_healthy limit item inv.report else inv.report;
    }
    else record inv {
      counts = record inv.counts { total = suc inv.counts.total };
      report = push_issue limit item inv.report;
      candidates =
          inv.candidates
          ++ record {
            kind = kind;
            name = item.name;
            namespace = item.namespace;
            health = item.health;
            priority = priority item.health;
          }
            ∷ [];
    }

unfoldable pub visit_all : ℕ → Bool → String → (Health → ℕ) → List Item → Inventory → Inventory
visit_all limit listed kind priority [] inv = inv
visit_all limit listed kind priority (i ∷ is) inv =
    visit_all limit listed kind priority is (visit limit listed kind priority i inv)

abbrev pub no_counts : Counts
no_counts = record { total = 0; healthy = 0 }

-- one list, from no counts: a list that failed has none
unfoldable pub scan : ℕ → Bool → String → (Health → ℕ) → Option (List Item) → Inventory → Inventory
unfolding visit_all
scan limit listed kind priority none inv = record inv { counts = no_counts }
scan limit listed kind priority (some is) inv =
    visit_all limit listed kind priority is (record inv { counts = no_counts })

abbrev pub was_listed : Option (List Item) → Bool
was_listed none = false
was_listed (some _) = true

-- the order in which the candidates are diagnosed
unfoldable pub diagnosed_before : Candidate → Candidate → Bool
diagnosed_before a b =
    if not (eqb a.priority b.priority)
    then ltb a.priority b.priority
    else if not (a.kind == b.kind)
    then text_lt a.kind b.kind
    else if not (a.namespace == b.namespace)
    then text_lt a.namespace b.namespace
    else text_lt a.name b.name

deep_limit : ℤ → ℕ
deep_limit (pos (suc m)) = suc m
deep_limit _ = 8

-- the candidates that get a deep diagnosis, and how many are skipped
unfoldable pub deep_candidates : ℤ → List Candidate → List Candidate × ℕ
unfolding diagnosed_before deep_limit stable_sort
deep_candidates max_deep cs =
    let n = deep_limit max_deep in (take n (stable_sort diagnosed_before cs), length cs - n)
