-- ===== src/Kube/Spec.antt =====
-- The fields that the program reads of pod specifications, nodes, workloads and claims (k8s.io/api). A
-- resource.Quantity stands as its value in the smallest unit.
use kube_sre_mcp.Prelude.Int.{ℤ}
use kube_sre_mcp.Prelude.{ℕ, String, Bool, Option, List}
use kube_sre_mcp.Prelude.Map.{StringMap}
use kube_sre_mcp.Kube.Types.{LabelSelector, OwnerReference, Requirement, Condition, Terminated}

pub record ObjectMeta : Type 0 where
  pub name : String
  pub namespace : String
  pub uid : String
  pub labels : StringMap String
  pub annotations : StringMap String
  pub owner_references : List OwnerReference

-- ConfigMapKeyRef or SecretKeyRef
pub record KeyRef : Type 0 where
  pub name : String
  pub key : String

-- both are `none` where ValueFrom is nil
pub record EnvVar : Type 0 where
  pub config_map : Option KeyRef
  pub secret : Option KeyRef

pub record EnvFrom : Type 0 where
  pub config_map : Option String
  pub secret : Option String

-- the handlers that are not nil
pub record Probe : Type 0 where
  pub http_get : Bool
  pub tcp_socket : Bool
  pub exec : Bool
  pub grpc : Bool

pub record Container : Type 0 where
  pub name : String
  pub env : List EnvVar
  pub env_from : List EnvFrom
  pub request_cpu : ℕ
  pub request_memory : ℕ
  pub readiness_probe : Option Probe
  pub liveness_probe : Option Probe
  pub startup_probe : Option Probe

pub record ProjectedSource : Type 0 where
  pub secret : Option String
  pub config_map : Option String
  pub service_account_token : Bool

pub record Volume : Type 0 where
  pub config_map : Option String
  pub secret : Option String
  pub claim : Option String  -- PersistentVolumeClaim, its ClaimName
  pub projected : Option (List ProjectedSource)

pub record Toleration : Type 0 where
  pub key : String
  pub operator : String
  pub value : String
  pub effect : String

pub record Taint : Type 0 where
  pub key : String
  pub value : String
  pub effect : String

pub record NodeSelectorTerm : Type 0 where
  pub match_expressions : List Requirement
  pub match_fields : List Requirement

pub record PodSpec : Type 0 where
  pub node_name : String
  pub service_account_name : String
  pub image_pull_secrets : List String
  pub containers : List Container
  pub init_containers : List Container
  pub volumes : List Volume
  pub node_selector : StringMap String
  pub tolerations : List Toleration
  pub required_affinity : Option (List NodeSelectorTerm)  -- of NodeAffinity, required while scheduling

pub record Waiting : Type 0 where
  pub reason : String
  pub message : String

-- corev1.ContainerStatus
pub record StatusObject : Type 0 where
  pub name : String
  pub waiting : Option Waiting
  pub terminated : Option Terminated
  pub last_terminated : Option Terminated
  pub restart_count : ℤ
  pub ready : Bool

pub record PodCondition : Type 0 where
  pub type : String
  pub status : String
  pub reason : String
  pub message : String

pub record PodObject : Type 0 where
  pub meta : ObjectMeta
  pub spec : PodSpec
  pub phase : String
  pub conditions : List PodCondition
  pub init_container_statuses : List StatusObject
  pub container_statuses : List StatusObject

pub record NodeObject : Type 0 where
  pub name : String
  pub labels : StringMap String
  pub unschedulable : Bool
  pub taints : List Taint
  pub conditions : List Condition
  pub allocatable_cpu : ℕ
  pub allocatable_memory : ℕ

-- a Deployment, StatefulSet, DaemonSet or ReplicaSet: its selector and pod template
pub record WorkloadObject : Type 0 where
  pub meta : ObjectMeta
  pub selector : Option LabelSelector
  pub template : PodSpec
  pub claim_templates : List String  -- VolumeClaimTemplates, their names

pub record ClaimObject : Type 0 where
  pub meta : ObjectMeta
  pub phase : String
  pub volume_name : String
  pub storage_class_name : Option String

pub record ScalerObject : Type 0 where
  pub meta : ObjectMeta
  pub target_kind : String
  pub target_name : String

pub record BudgetObject : Type 0 where
  pub meta : ObjectMeta
  pub selector : Option LabelSelector

pub record ServiceObject : Type 0 where
  pub meta : ObjectMeta
  pub selector : StringMap String

pub record IngressObject : Type 0 where
  pub meta : ObjectMeta
  pub default_backend : Option String  -- DefaultBackend.Service, its name
  pub rules : List (Option (List (Option String)))  -- each rule's HTTP, the services of its paths

-- the conditions' Ready of each endpoint of a slice
pub record SliceObject : Type 0 where
  pub meta : ObjectMeta
  pub endpoints : List (Option Bool)
