-- ===== src/Examples/Graphs.antt =====
-- internal/graph: a deployment with one pod, and ReplicaSets of two revisions.
use kube_sre_mcp.Prelude.{String, none, List, [], ◌∷◌, ◌++◌, ◌≡◌, All, is_empty}
use kube_sre_mcp.Prelude.Int.{pos}
use mathlib.Core.List.{Perm}
use kube_sre_mcp.Message.{text}
use kube_sre_mcp.Action.Store.{ok, err}
use kube_sre_mcp.Kube.Types.{OwnerReference}
use kube_sre_mcp.Kube.Spec.{ObjectMeta, PodSpec, WorkloadObject}
use kube_sre_mcp.Graph.Core.{Limits}
use kube_sre_mcp.Graph.Owners.{owned_sets, current_replica_sets}
use kube_sre_mcp.Graph.Dependencies.{Api}
use kube_sre_mcp.Graph.WellFormed.{IsWellFormed}
use kube_sre_mcp.Graph.Results.{a_deployment, root_of, build_graph, build_graph-IsWellFormed}
use kube_sre_mcp.Graph.Revisions.{Supersedes, current_replica_sets-division}

abbrev meta : String → String → List OwnerReference → ObjectMeta
meta name uid owners = record {
  name = name;
  namespace = "shop";
  uid = uid;
  labels = [];
  annotations = ("deployment.kubernetes.io/revision", name) ∷ [];
  owner_references = owners;
}

abbrev owner : String → String → OwnerReference
owner kind uid = record {
  api_version = "apps/v1";
  kind = kind;
  name = kind;
  uid = uid;
  controller = none;
}

abbrev spec : PodSpec
spec = record {
  node_name = "node-1";
  service_account_name = "web";
  image_pull_secrets = "registry" ∷ [];
  containers = [];
  init_containers = [];
  volumes = [];
  node_selector = [];
  tolerations = [];
  required_affinity = none;
}

abbrev workload : String → String → List OwnerReference → WorkloadObject
workload name uid owners = record {
  meta = meta name uid owners;
  selector = none;
  template = spec;
  claim_templates = [];
}

abbrev web : WorkloadObject
web = workload "web" "d" []

abbrev sets : List WorkloadObject
sets =
    workload "3" "r3" (owner "Deployment" "d" ∷ [])
    ∷ workload "4" "r4" (owner "Deployment" "d" ∷ [])
    ∷ workload "9" "x" []
    ∷ []

abbrev api : Api
api = record {
  replica_sets = λ ns. ok sets;
  pods = λ ns selector. ok (
      record {
        meta = meta "web-1" "p" (owner "ReplicaSet" "r4" ∷ []);
        spec = spec;
        phase = "Running";
        conditions = [];
        init_container_statuses = [];
        container_statuses = [];
      }
      ∷ []);
  claims = λ ns. ok [];
  jobs = λ ns. ok [];
  slices = λ ns selector. ok [];
  scalers = λ ns. err (text "forbidden");
  budgets = λ ns. ok [];
  format_label_selector = λ s. "";
  label_selector_as_selector = λ s. none;
}

abbrev limits : Limits
limits = record { max_depth = pos 4; max_nodes = pos 50 }

build_graph-IsWellFormed_example :
    IsWellFormed (root_of (a_deployment web)) (build_graph api limits (a_deployment web)).0
build_graph-IsWellFormed_example = build_graph-IsWellFormed api limits (a_deployment web)

current_replica_sets-division_example :
    Perm
      ((current_replica_sets web.meta sets).0 ++ (current_replica_sets web.meta sets).1)
      (owned_sets "d" sets)
    × (is_empty (current_replica_sets web.meta sets).0 ≡ is_empty (owned_sets "d" sets))
    × All
        (λ o. All (λ c. Supersedes c o) (current_replica_sets web.meta sets).0)
        (current_replica_sets web.meta sets).1
current_replica_sets-division_example = current_replica_sets-division web.meta sets
