-- ===== src/Action/Guards.antt =====
-- internal/action/engine.go: the tests on objects that the handlers make.
pub mod Budgets
use kube_sre_mcp.Prelude.{
  ℕ, suc, String, Bool, true, false, not, ◌&&◌, ◌||◌, Option, none, some, List, [], ◌∷◌, ◌++◌, ◌==◌,
  if◌then◌else◌, is_empty, any,
}
use kube_sre_mcp.Prelude.Int.{ℤ, pos, ℤ_eq}
use kube_sre_mcp.Prelude.Map.{StringMap}
use kube_sre_mcp.Prelude.Text.{has_prefix}
use kube_sre_mcp.Kube.Types.{
  value_of, LabelSelector, OwnerReference, ContainerStatus, Pod, Condition, Node,
  PodDisruptionBudget, HorizontalPodAutoscaler,
}
use kube_sre_mcp.Action.Cluster.{Env}

abbrev is_ready_condition : Condition → Bool
is_ready_condition c = c.type == "Ready" && c.status == "True"

unfoldable pub node_ready : Node → Bool
node_ready n = any is_ready_condition n.conditions

-- the loop that counts in Cordon
unfoldable pub count_schedulable : List Node → ℕ
unfolding node_ready
count_schedulable [] = 0
count_schedulable (n ∷ ns) =
    let rest = count_schedulable ns in
    if not n.unschedulable && node_ready n then suc rest else rest

-- `match` in hasHPA; an API version `apps/v1` also begins with `apps/`
unfoldable pub hpa_matches : String → String → HorizontalPodAutoscaler → Bool
hpa_matches kind name h =
    if not (h.target_kind == kind) || not (h.target_name == name)
    then false
    else if h.target_api_version == ""
    then true
    else h.target_api_version == "apps/v1"
      || h.target_api_version == "apps/v1beta1"
      || h.target_api_version == "apps/v1beta2"
      || has_prefix h.target_api_version "apps/"

module _ (env : Env) where
  -- pdbMatchesWorkload
  unfoldable pub pdb_matches_workload : PodDisruptionBudget → Option LabelSelector → Bool
  pdb_matches_workload p none = false
  pdb_matches_workload p (some sel) = elim p.selector [
    | none ↦ false
    | some pdb_sel ↦ elim (env.label_selector_as_selector pdb_sel) [
      | none ↦ true
      | some matches ↦
          if is_empty sel.match_labels && not (is_empty sel.match_expressions)
          then true
          else matches sel.match_labels
    ]
  ]

  -- the test of matchingPDBBlockForPod; a selector that cannot be parsed counts as a match
  unfoldable pub pdb_matches_pod : Pod → PodDisruptionBudget → Bool
  pdb_matches_pod pod p = elim p.selector [
    | none ↦ false
    | some pdb_sel ↦ elim (env.label_selector_as_selector pdb_sel) [
      | none ↦ true
      | some matches ↦ matches pod.labels
    ]
  ]

-- the loop of matchingPDBBlock and matchingPDBBlockForPod: whether a matching budget allows no
-- disruption, and the names of the matching ones
unfoldable pub pdb_block :
    (PodDisruptionBudget → Bool)
    → Bool
    → List String
    → List PodDisruptionBudget
    → Bool × List String
pdb_block matches blocked names [] = (blocked, names)
pdb_block matches blocked names (p ∷ ps) =
    pdb_block matches (if matches p && ℤ_eq p.disruptions_allowed (pos 0) then true else blocked)
      (if matches p then names ++ p.name ∷ [] else names) ps

unfoldable pub is_control_plane_pod : Pod → Bool
is_control_plane_pod p =
    if not (value_of p.labels "label.kubernetes.io/control-plane" == "")
    then true
    else if p.namespace == "kube-system"
        && (value_of p.labels "component" == "kube-apiserver"
            || value_of p.labels "tier" == "control-plane"
            || value_of p.labels "component" == "etcd"
            || value_of p.labels "component" == "kube-scheduler")
    then true
    else false

unfoldable pub is_mirror_pod : Pod → Bool
is_mirror_pod p =
    if not (value_of p.annotations "kubernetes.io/config.mirror" == "")
    then true
    else if value_of p.annotations "kubernetes.io/config.source" == "file"
        || value_of p.annotations "kubernetes.io/config.source" == "static"
    then true
    else false

abbrev first_kind : List OwnerReference → String
first_kind [] = ""
first_kind (o ∷ _) = o.kind

-- the loop of ownerKind; what comes after it is `otherwise`
controller_kind : String → List OwnerReference → String
controller_kind otherwise [] = otherwise
controller_kind otherwise (o ∷ os) =
    let rest = controller_kind otherwise os in
    elim o.controller [ none ↦ rest | some c ↦ if c then o.kind else rest ]

unfoldable pub owner_kind : Pod → String
unfolding controller_kind
owner_kind p = controller_kind (first_kind p.owner_references) p.owner_references

-- the `switch` on a waiting reason; "" where no case is taken
abbrev category_of_reason : String → String
category_of_reason reason =
    if reason == "ImagePullBackOff" || reason == "ErrImagePull"
    then "IMAGE_PULL_FAILURE"
    else if reason == "CreateContainerConfigError"
    then "CONFIG_ERROR"
    else if reason == "CrashLoopBackOff"
    then "CRASH_LOOP"
    else ""

abbrev category_of_status : ContainerStatus → String
category_of_status cs = elim cs.waiting [ none ↦ "" | some reason ↦ category_of_reason reason ]

category_of_statuses : List ContainerStatus → String
category_of_statuses [] = ""
category_of_statuses (cs ∷ rest) =
    let later = category_of_statuses rest in
    if category_of_status cs == "" then later else category_of_status cs

-- the loops of inferRestartCategory
unfoldable pub category_of_pods : List Pod → String
unfolding category_of_statuses
category_of_pods [] = ""
category_of_pods (p ∷ ps) =
    let later = category_of_pods ps in
    let here = category_of_statuses p.container_statuses in if here == "" then later else here
