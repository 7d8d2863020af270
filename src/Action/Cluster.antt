-- ===== src/Action/Cluster.antt =====
-- What the action engine asks of a cluster, and the computations that ask. The API server and the
-- other clients of the cluster are a parameter: a reply may be any function of all requests that
-- were made before, so the objects may change between two of them.
use kube_sre_mcp.Prelude.{ℕ, String, Bool, true, false, Option, List, [], ◌∷◌}
use kube_sre_mcp.Prelude.Map.{StringMap}
use kube_sre_mcp.Prelude.Int.{ℤ}
use kube_sre_mcp.Message.{Message}
use kube_sre_mcp.Kube.Types.{
  LabelSelector, Pod, Node, Deployment, Workload, PodDisruptionBudget, HorizontalPodAutoscaler,
  AccessRequest, AccessReview,
}
use kube_sre_mcp.Action.Store.{Fallible, ok, err, Store}

-- an error is known by its text
abbrev pub Reply : Type 0 → Type 0
Reply = Fallible Message

pub data PatchType : Type 0 where
  merge_patch strategic_merge_patch : PatchType

-- resource, namespace and name, as far as the call has them
pub data Call : Type 0 where
  review : AccessRequest → Call
  get : String → String → String → Call
  list : String → String → String → Call
  patch : String → String → String → PatchType → Message → Call
  delete : String → String → String → ℤ → Call

pub record Request : Type 0 where
  pub context : String
  pub call : Call

abbrev pub is_mutation : Call → Bool
is_mutation (patch _ _ _ _ _) = true
is_mutation (delete _ _ _ _) = true
is_mutation _ = false

-- the requests made before, the latest first
abbrev pub History : Type 0
History = List Request

-- kubernetes.Interface
pub record Api : Type 0 where
  pub review_access : History → AccessRequest → Reply AccessReview
  pub get_deployment : History → String → String → Reply Deployment
  pub get_stateful_set : History → String → String → Reply Workload
  pub get_replica_set : History → String → String → Reply Workload
  pub get_pod : History → String → String → Reply Pod
  pub get_node : History → String → Reply Node
  pub list_nodes : History → Reply (List Node)
  pub list_pods : History → String → String → Reply (List Pod)
  pub list_hpas_v2 : History → String → Reply (List HorizontalPodAutoscaler)
  pub list_hpas_v1 : History → String → Reply (List HorizontalPodAutoscaler)
  pub list_pdbs : History → String → Reply (List PodDisruptionBudget)
  pub mutate : History → Call → Option Message  -- the error, if any

-- kube.ClusterClient
pub record ClusterClient : Type 0 where
  pub context_name : String
  pub api : Api

-- the clock and the random source by the number of readings made, and k8s.io/apimachinery's
-- metav1.LabelSelectorAsSelector (`none` is its error) and metav1.FormatLabelSelector
pub record Env : Type 0 where
  pub now : ℕ → ℕ
  pub entropy : ℕ → Fallible String (List ℕ)
  pub label_selector_as_selector : LabelSelector → Option (StringMap String → Bool)
  pub format_label_selector : LabelSelector → String

pub record World : Type 0 where
  pub store : Store
  pub history : History
  pub readings : ℕ

-- A handler's computation: it goes on with a value, or returns from the handler with an `R`.
pub data Outcome (R A : Type 0) : Type 0 where
  next : A → Outcome R A
  return : R → Outcome R A

abbrev pub Step : Type 0 → Type 0 → Type 0
Step R A = World → Outcome R A × World

module _ {R A : Type 0} where
  unfoldable pub pure : A → Step R A
  pure a w = (next a, w)

  unfoldable pub return_early : R → Step R A
  return_early r w = (return r, w)

  -- one request, and the reply that the API has for it now
  unfoldable pub send : ClusterClient → Call → (History → A) → Step R A
  send cl c reply w = (
    next (reply w.history),
    record w { history = record { context = cl.context_name; call = c } ∷ w.history },
  )

  -- `if err != nil { return ... }`
  unfoldable pub or_return : (Message → R) → Reply A → Step R A
  or_return refuse (ok a) w = (next a, w)
  or_return refuse (err e) w = (return (refuse e), w)

module _ {R A B : Type 0} where
  infixl 10 ◌>>=◌ ◌>>◌
  unfoldable pub continue : Outcome R A → (A → Step R B) → Step R B
  continue (next a) f w = f a w
  continue (return r) f w = (return r, w)

  unfoldable pub ◌>>=◌ : Step R A → (A → Step R B) → Step R B
  unfolding continue
  ◌>>=◌ m f w = let (o, w') = m w in continue o f w'

  abbrev pub ◌>>◌ : Step R A → Step R B → Step R B
  m >> n = m >>= λ _. n

-- the handler's result
unfoldable pub finish : {R : Type 0} → Outcome R R → R
finish (next r) = r
finish (return r) = r

-- the changes that were asked for, the latest first
unfoldable pub mutations : History → History
mutations [] = []
mutations (r ∷ rs) =
    let rest = mutations rs in elim (is_mutation r.call) [ true ↦ r ∷ rest | false ↦ rest ]
