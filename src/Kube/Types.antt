-- ===== src/Kube/Types.antt =====
-- The fields that the program reads of the API types (k8s.io/api); integers are int32 or int64.
use kube_sre_mcp.Prelude.{String, Bool, Option, none, some, List}
use kube_sre_mcp.Prelude.Int.{ℤ}
use kube_sre_mcp.Prelude.Map.{StringMap, lookup}

-- `m[k]`, with the zero value where the key is missing
abbrev pub value_of : StringMap String → String → String
unfolding lookup
value_of m k = elim (lookup k m) [ none ↦ "" | some v ↦ v ]

pub record Requirement : Type 0 where
  pub key : String
  pub operator : String
  pub values : List String

pub record LabelSelector : Type 0 where
  pub match_labels : StringMap String
  pub match_expressions : List Requirement

pub record OwnerReference : Type 0 where
  pub api_version : String
  pub kind : String
  pub name : String
  pub uid : String
  pub controller : Option Bool

pub record Terminated : Type 0 where
  pub reason : String
  pub exit_code : ℤ

pub record ContainerStatus : Type 0 where
  pub name : String
  pub waiting : Option String  -- State.Waiting, its Reason
  pub terminated : Option Terminated  -- State.Terminated
  pub last_terminated : Option Terminated  -- LastTerminationState.Terminated
  pub restart_count : ℤ
  pub ready : Bool

pub record Pod : Type 0 where
  pub name : String
  pub namespace : String
  pub uid : String
  pub labels : StringMap String
  pub annotations : StringMap String
  pub owner_references : List OwnerReference
  pub phase : String
  pub init_container_statuses : List ContainerStatus
  pub container_statuses : List ContainerStatus
  pub containers : List String  -- Spec.Containers, their names

pub record Condition : Type 0 where
  pub type : String
  pub status : String
  pub message : String

pub record Node : Type 0 where
  pub name : String
  pub uid : String
  pub labels : StringMap String
  pub unschedulable : Bool
  pub conditions : List Condition

pub record Deployment : Type 0 where
  pub name : String
  pub namespace : String
  pub uid : String
  pub replicas : Option ℤ
  pub available_replicas : ℤ
  pub strategy : String
  pub selector : Option LabelSelector

-- a StatefulSet or a ReplicaSet
pub record Workload : Type 0 where
  pub uid : String
  pub replicas : Option ℤ

pub record PodDisruptionBudget : Type 0 where
  pub name : String
  pub selector : Option LabelSelector
  pub disruptions_allowed : ℤ

-- of autoscaling/v1 and v2: the reference to the scaled object
pub record HorizontalPodAutoscaler : Type 0 where
  pub target_api_version : String
  pub target_kind : String
  pub target_name : String

pub record AccessRequest : Type 0 where
  pub verb : String
  pub resource : String
  pub group : String
  pub namespace : String
  pub name : String

pub record AccessReview : Type 0 where
  pub allowed : Bool
  pub reason : String
