-- ===== src/Action/Engine.antt =====
-- internal/action/engine.go, errors.go, risk.go and authorization.go: the result of a handler, and
-- the parts that the handlers share. A handler's early `return` is `return_early`.
pub mod Reads
use kube_sre_mcp.Prelude.{
  ℕ, ◌+◌, String, Bool, true, false, not, ◌&&◌, ◌||◌, Option, none, some, List, [], ◌∷◌, ◌==◌,
  if◌then◌else◌, any,
}
use kube_sre_mcp.Prelude.Int.{ℤ}
use kube_sre_mcp.Message.{Message, text, quoted, names, redacted, ◌<>◌}
use kube_sre_mcp.Config.{Config}
use kube_sre_mcp.Kube.Types.{
  LabelSelector, Pod, Node, Deployment, Workload, PodDisruptionBudget, HorizontalPodAutoscaler,
  AccessRequest, AccessReview,
}
use kube_sre_mcp.Action.Store.{
  Fallible, ok, err, ConfirmationError, confirmation_mismatch, confirmation_expired,
  confirmation_replay, confirmation_missing, token_entropy, Pending, put, take,
}
use kube_sre_mcp.Action.Cluster.{
  Reply, Call, review, get, list, History, Api, ClusterClient, Env, World, Outcome, next, return,
  Step, pure, return_early, send, or_return, ◌>>=◌, ◌>>◌,
}
use kube_sre_mcp.Action.Guards.{
  hpa_matches, pdb_matches_workload, pdb_matches_pod, pdb_block, category_of_pods,
}

-- the values of Result.Status; "" is the zero value's
pub data Status : Type 0 where
  disabled error confirmation_required confirmation_mismatch_status forbidden : Status
  restart_not_recommended preflight_failed blocked_by_pdb success ok_status : Status

pub data Risk : Type 0 where
  no_risk low medium high critical : Risk

-- the entries of a BlastRadius map
pub data BlastEntry : Type 0 where
  count_entry : String → ℤ → BlastEntry
  text_entry : String → String → BlastEntry
  flag_entry : String → Bool → BlastEntry

pub record Result : Type 0 where
  pub status : Status
  pub message : Message
  pub confirmation_id : String
  pub action : String
  pub risk : Risk
  pub authorized : Bool
  pub auth_reason : Message
  pub blast_radius : List BlastEntry
  pub preconditions : List Message

-- Result{Status: status}
abbrev pub result : Status → Result
result status = record {
  status = status;
  message = text "";
  confirmation_id = "";
  action = "";
  risk = no_risk;
  authorized = false;
  auth_reason = text "";
  blast_radius = [];
  preconditions = [];
}

-- Result{Status: status, Message: message, Authorized: authorized}
abbrev pub refusal : Status → Message → Bool → Result
refusal status message authorized = record (result status) {
  message = message;
  authorized = authorized;
}

-- errMsg, of an error that is not nil
abbrev pub err_msg : Message → Message
err_msg e = redacted e

abbrev pub error_result : Message → Result
error_result e = refusal error (err_msg e) false

abbrev pub authorized_error : Message → Result
authorized_error e = refusal error (err_msg e) true

pub record Engine : Type 0 where
  pub cfg : Config
  pub cluster : Option ClusterClient
  pub for_context : Option (String → Reply ClusterClient)

unfoldable pub disabled_result : Result
disabled_result =
    refusal disabled (text "write actions are disabled (KUBE_SRE_MCP_ACTIONS_ENABLED=false)") false

abbrev uses_default : String → ClusterClient → Bool
uses_default ctx_name cl = ctx_name == "" || ctx_name == cl.context_name

-- what follows the first test of clusterFor; with a cluster set, that test has failed
abbrev other_cluster : Engine → String → Reply ClusterClient
other_cluster e ctx_name = elim e.for_context [
  | some for_context ↦ for_context ctx_name
  | none ↦ elim e.cluster [
    | none ↦ err (text "no kubernetes cluster client")
    | some cl ↦
        if not (ctx_name == "") && not (ctx_name == cl.context_name)
        then err (text "context " <> quoted ctx_name <> text " is not available on this process")
        else ok cl
  ]
]

unfoldable pub cluster_for : Engine → String → Reply ClusterClient
cluster_for e ctx_name = elim e.cluster [
  | none ↦ other_cluster e ctx_name
  | some cl ↦ if uses_default ctx_name cl then ok cl else other_cluster e ctx_name
]

-- err.Error() of the store's errors
abbrev pub confirmation_text : ConfirmationError → Message
confirmation_text confirmation_mismatch = text "confirmation_mismatch"
confirmation_text confirmation_expired = text "confirmation_expired"
confirmation_text confirmation_replay = text "confirmation_replay"
confirmation_text confirmation_missing = text "confirmation_not_found"
confirmation_text (token_entropy e) = text "confirmation token entropy: " <> text e

abbrev pub confirmation_status : ConfirmationError → Status
confirmation_status confirmation_mismatch = confirmation_mismatch_status
confirmation_status _ = error

-- Pending{}
abbrev pub zero_pending : Pending
zero_pending = record {
  action = "";
  api_group = "";
  kind = "";
  name = "";
  namespace = "";
  uid = "";
  context = "";
  replicas = none;
  grace = none;
  cordon = none;
  hpa_present = false;
  expires = 0;
}

abbrev pub of_put : Pending → Fallible ConfirmationError String → Result × Pending
of_put want (ok id) = (
  record (result confirmation_required) {
    confirmation_id = id;
    action = want.action;
    authorized = true;
  },
  zero_pending,
)
of_put want (err e) = (refusal error (err_msg (confirmation_text e)) false, zero_pending)

abbrev pub of_take : Fallible ConfirmationError Pending → Result × Pending
of_take (ok stored) = (result ok_status, stored)
of_take (err e) =
    (refusal (confirmation_status e) (err_msg (confirmation_text e)) false, zero_pending)

module _ (env : Env) where
  -- Engine.confirm
  unfoldable pub confirm : {R : Type 0} → Pending → String → Step R (Result × Pending)
  confirm want confirm_id w =
      if confirm_id == ""
      then (let (r, s) =
            put (env.now w.readings) (env.now (w.readings + 1)) (env.entropy w.readings) want
              w.store in
          (next (of_put want r), record w { store = s; readings = w.readings + 2 }))
      else (let (r, s) =
            take (env.now w.readings) (env.now (w.readings + 1)) confirm_id want w.store in
          (next (of_take r), record w { store = s; readings = w.readings + 2 }))

abbrev denied_reason : String → Message
denied_reason reason =
    redacted (if reason == "" then text "SelfSubjectAccessReview denied" else text reason)

-- SelfSubjectAllowed, with the answers that every handler has to it
unfoldable pub require_allowed :
    ClusterClient → String → String → String → String → String → Step Result (Unit {0})
require_allowed cl verb resource group namespace name = do
  let access : AccessRequest = record {
    verb = verb;
    resource = resource;
    group = group;
    namespace = namespace;
    name = name;
  }
  reply ← send cl (review access) (λ h. cl.api.review_access h access)
  out ← or_return error_result reply
  if out.allowed
      then pure tt
      else return_early (record (refusal forbidden (redacted (denied_reason out.reason)) false) {
        auth_reason = redacted (denied_reason out.reason);
      })

-- the next reading of time.Now
unfoldable pub time_now : Env → {R : Type 0} → Step R ℕ
time_now env w = (next (env.now w.readings), record w { readings = w.readings + 1 })

-- one change of the cluster, and its error
unfoldable pub mutate : ClusterClient → Call → Step Result (Unit {0})
mutate cl call = do
  failed ← send cl call (λ h. cl.api.mutate h call)
  elim failed [ none ↦ pure tt | some e ↦ return_early (authorized_error e) ]

abbrev pub any_hpa : String → String → Reply (List HorizontalPodAutoscaler) → Reply Bool
any_hpa kind name (err e) = err e
any_hpa kind name (ok items) = ok (any (hpa_matches kind name) items)

module _ (cl : ClusterClient) (ns : String) where
  -- what hasHPA does once the v2 list matched nothing
  unfoldable pub has_hpa_v1 : String → String → Step Result (Reply Bool)
  has_hpa_v1 kind name = do
    v1 ←
        send cl (list "horizontalpodautoscalers.v1.autoscaling" ns "")
          (λ h. cl.api.list_hpas_v1 h ns)
    pure (any_hpa kind name v1)

  unfoldable pub after_hpas_v2 :
      String → String → Reply (List HorizontalPodAutoscaler) → Step Result (Reply Bool)
  after_hpas_v2 kind name (err e) = pure (err e)
  after_hpas_v2 kind name (ok items) =
      if any (hpa_matches kind name) items then pure (ok true) else has_hpa_v1 kind name

  -- hasHPA
  unfoldable pub has_hpa : String → String → Step Result (Reply Bool)
  has_hpa kind name = do
    v2 ←
        send cl (list "horizontalpodautoscalers.v2.autoscaling" ns "")
          (λ h. cl.api.list_hpas_v2 h ns)
    after_hpas_v2 kind name v2

  -- hasHPA with the handler's answer to its error
  unfoldable pub require_hpas : String → String → String → Step Result Bool
  require_hpas limited kind name = do
    reply ← has_hpa kind name
    or_return (λ e. refusal preflight_failed (text limited <> err_msg e) true) reply

  -- currentUID; Scale has excluded every other kind
  unfoldable pub current_uid : String → String → Step Result String
  current_uid kind name =
      if kind == "Deployment"
      then (do
        reply ← send cl (get "deployments" ns name) (λ h. cl.api.get_deployment h ns name)
        d ← or_return authorized_error reply
        pure d.uid)
      else if kind == "StatefulSet"
      then (do
        reply ← send cl (get "statefulsets" ns name) (λ h. cl.api.get_stateful_set h ns name)
        s ← or_return authorized_error reply
        pure s.uid)
      else if kind == "ReplicaSet"
      then (do
        reply ← send cl (get "replicasets" ns name) (λ h. cl.api.get_replica_set h ns name)
        rs ← or_return authorized_error reply
        pure rs.uid)
      else return_early (authorized_error (text "unsupported kind"))

  -- matchingPDBBlock or matchingPDBBlockForPod, with the handler's answers: an error, then a budget
  -- that allows no disruption
  unfoldable pub require_no_pdb_block :
      String → (PodDisruptionBudget → Bool) → Step Result (List String)
  require_no_pdb_block limited matches = do
    reply ← send cl (list "poddisruptionbudgets" ns "") (λ h. cl.api.list_pdbs h ns)
    items ← or_return (λ e. refusal preflight_failed (text limited <> err_msg e) true) reply
    let found = pdb_block matches false [] items
    if found.0
        then return_early
            (record (refusal blocked_by_pdb (text "PodDisruptionBudget disruptionsAllowed=0")
              true) { preconditions = names found.1 ∷ [] })
        else pure found.1

-- the answer where the object is not the one that was confirmed
abbrev pub recreated : Result
recreated =
    refusal confirmation_mismatch_status
      (text "object UID changed since confirmation; refusing to mutate a recreated object") true

abbrev pub is_ok : Status → Bool
is_ok ok_status = true
is_ok _ = false

abbrev pub needs_confirmation : List Message
needs_confirmation = text "mutating action requires confirmation" ∷ []

-- the answer of every handler to what `confirm` returned
abbrev pub unless_confirmed :
    (Result → Result) → (Pending → Step Result Result) → Result × Pending → Step Result Result
unless_confirmed refuse k confirmed =
    if not (is_ok confirmed.0.status) then return_early (refuse confirmed.0) else k confirmed.1
