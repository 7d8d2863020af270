-- ===== src/Examples/Cluster.antt =====
-- A cluster with one Deployment, one pod and two nodes, and an engine for it.
use kube_sre_mcp.Action.Scale.{scale_want}
use kube_sre_mcp.Action.DeletePod.{delete_want}
use kube_sre_mcp.Action.Cordon.{cordon_want}
use kube_sre_mcp.Prelude.{◌+◌, ◌*◌, ◌^◌, String, true, false, none, some, [], ◌∷◌}
use kube_sre_mcp.Prelude.Int.{pos}
use kube_sre_mcp.Config.{Config}
use kube_sre_mcp.Kube.Types.{
  LabelSelector, ContainerStatus, Pod, Condition, Node, Deployment, PodDisruptionBudget,
}
use kube_sre_mcp.Action.Store.{ok, Pending, Store}
use kube_sre_mcp.Action.Cluster.{Api, ClusterClient, Env, World}
use kube_sre_mcp.Action.Engine.{Engine}

abbrev pub web_selector : LabelSelector
web_selector = record { match_labels = ("app", "web") ∷ []; match_expressions = [] }

abbrev pub web : Deployment
web = record {
  name = "web";
  namespace = "shop";
  uid = "uid-web";
  replicas = some (pos 3);
  available_replicas = pos 3;
  strategy = "RollingUpdate";
  selector = some web_selector;
}

abbrev pub container : ContainerStatus
container = record {
  name = "app";
  waiting = none;
  terminated = none;
  last_terminated = none;
  restart_count = pos 0;
  ready = true;
}

abbrev pub web_pod : Pod
web_pod = record {
  name = "web-1";
  namespace = "shop";
  uid = "uid-pod";
  labels = ("app", "web") ∷ [];
  annotations = [];
  owner_references = [];
  phase = "Running";
  init_container_statuses = [];
  container_statuses = container ∷ [];
  containers = "app" ∷ [];
}

abbrev pub ready : Condition
ready = record { type = "Ready"; status = "True"; message = "" }

abbrev pub worker : String → Node
worker name = record {
  name = name;
  uid = "uid-node";
  labels = [];
  unschedulable = false;
  conditions = ready ∷ [];
}

abbrev pub budget : PodDisruptionBudget
budget = record { name = "web"; selector = some web_selector; disruptions_allowed = pos 1 }

abbrev pub api : Api
api = record {
  review_access = λ _ _. ok (record { allowed = true; reason = "" });
  get_deployment = λ _ _ _. ok web;
  get_stateful_set = λ _ _ _. ok (record { uid = "uid-set"; replicas = none });
  get_replica_set = λ _ _ _. ok (record { uid = "uid-rs"; replicas = none });
  get_pod = λ _ _ _. ok web_pod;
  get_node = λ _ name. ok (worker name);
  list_nodes = λ _. ok (worker "a" ∷ worker "b" ∷ []);
  list_pods = λ _ _ _. ok (web_pod ∷ []);
  list_hpas_v2 = λ _ _. ok [];
  list_hpas_v1 = λ _ _. ok [];
  list_pdbs = λ _ _. ok (budget ∷ []);
  mutate = λ _ _. none;
}

abbrev pub client : ClusterClient
client = record { context_name = "prod"; api = api }

abbrev pub cfg : Config
cfg = record {
  kubeconfig = "";
  context = "";
  log_level = "info";
  actions_enabled = true;
  max_graph_depth = pos 4;
  max_graph_nodes = pos 200;
  max_deep_pods = pos 5;
  max_events = pos 100;
  max_log_lines = pos 500;
  api_timeout = pos (10 * 10 ^ 9);
  diagnostic_timeout = pos (60 * 10 ^ 9);
  max_concurrent_k8s = pos 4;
  max_replicas = pos 50;
  metrics_listen = "";
  confirmation_ttl = pos (120 * 10 ^ 9);
  prefix_match = false;
  max_cluster_deep_diagnoses = pos 8;
}

abbrev pub engine : Engine
engine = record { cfg = cfg; cluster = some client; for_context = none }

-- a clock that advances by one at each reading
abbrev pub environment : Env
environment = record {
  now = λ n. n + 100;
  entropy = λ _. ok (10 ∷ 255 ∷ []);
  label_selector_as_selector = λ _. some (λ _. true);
  format_label_selector = λ _. "app=web";
}

-- a confirmation of the restart of the Deployment
abbrev pub restart_pending : Pending
restart_pending = record {
  action = "restart_deployment";
  api_group = "apps";
  kind = "Deployment";
  name = "web";
  namespace = "shop";
  uid = "uid-web";
  context = "prod";
  replicas = none;
  grace = none;
  cordon = none;
  hpa_present = false;
  expires = 1000;
}

abbrev pub store : Store
store = record { items = ("0aff", restart_pending) ∷ []; ttl = pos 900 }

abbrev pub world : World
world = record { store = store; history = []; readings = 0 }

-- a world whose store holds this confirmation
abbrev pub held_for : Pending → World
held_for p = record world {
  store = record store { items = ("0aff", record p { expires = 1000 }) ∷ [] };
}

abbrev pub delete_pending : Pending
delete_pending = record (delete_want client "web-1" "shop" (pos 30) web_pod) { expires = 1000 }

abbrev pub cordon_pending : Pending
cordon_pending = record (cordon_want client "a" true (worker "a")) { expires = 1000 }

abbrev pub scale_pending : Pending
scale_pending = record (scale_want client "Deployment" "web" "shop" (pos 5) "uid-web" false) {
  expires = 1000;
}
