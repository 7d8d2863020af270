-- ===== src/Action/Scale.antt =====
-- internal/action/engine.go: Scale.
pub mod Safety
pub mod Progress
use kube_sre_mcp.Prelude.{
  String, Bool, true, false, not, ◌&&◌, Option, none, some, List, [], ◌∷◌, ◌++◌, ◌==◌,
  if◌then◌else◌,
}
use kube_sre_mcp.Prelude.Int.{ℤ, pos, ℤ_lt, is_negative}
use kube_sre_mcp.Message.{text, quoted, number, ◌<>◌}
use kube_sre_mcp.Kube.Kind.{normalize_kind}
use kube_sre_mcp.Action.Store.{Pending}
use kube_sre_mcp.Action.Cluster.{
  Call, get, patch, merge_patch, ClusterClient, Env, Step, pure, return_early, send, or_return,
  ◌>>=◌, ◌>>◌,
}
use kube_sre_mcp.Action.Engine.{
  Result, Engine, count_entry, text_entry, high, critical, success, error, preflight_failed,
  refusal, error_result, disabled_result, cluster_for, confirm, require_allowed, mutate,
  require_hpas, current_uid, recreated, unless_confirmed, needs_confirmation,
}

-- the resource of a kind that can be scaled
unfoldable pub scaled_resource : String → Option String
scaled_resource kind =
    if kind == "StatefulSet"
    then some "statefulsets"
    else if kind == "ReplicaSet"
    then some "replicasets"
    else if kind == "Deployment"
    then some "deployments"
    else none

abbrev replicas_or_zero : Option ℤ → ℤ
replicas_or_zero none = pos 0
replicas_or_zero (some n) = n

-- the patch that Scale sends
abbrev pub scale_patch : String → String → String → ℤ → Call
scale_patch resource ns name replicas =
    patch resource ns name merge_patch
      (text "{\"spec\":{\"replicas\":" <> number replicas <> text "}}")

pub record Scaled : Type 0 where
  pub current : ℤ
  pub uid : String

module _ (cl : ClusterClient) (ns : String) where
  -- the `switch` that reads the target
  unfoldable pub scale_target : String → String → Step Result Scaled
  scale_target kind name =
      if kind == "Deployment"
      then (do
        reply ← send cl (get "deployments" ns name) (λ h. cl.api.get_deployment h ns name)
        d ← or_return error_result reply
        pure (record { current = replicas_or_zero d.replicas; uid = d.uid }))
      else if kind == "StatefulSet"
      then (do
        reply ← send cl (get "statefulsets" ns name) (λ h. cl.api.get_stateful_set h ns name)
        s ← or_return error_result reply
        pure (record { current = replicas_or_zero s.replicas; uid = s.uid }))
      else if kind == "ReplicaSet"
      then (do
        reply ← send cl (get "replicasets" ns name) (λ h. cl.api.get_replica_set h ns name)
        rs ← or_return error_result reply
        pure (record { current = replicas_or_zero rs.replicas; uid = rs.uid }))
      else pure (record { current = pos 0; uid = "" })

  -- what the second call does once its token is taken
  unfoldable pub scale_execute : String → String → String → ℤ → Pending → Step Result Result
  scale_execute kind resource name replicas stored = do
    live_uid ← current_uid cl ns kind name
    if not (live_uid == stored.uid) then return_early recreated else do
      hpa_now ← require_hpas cl ns "HPA visibility limited at execution: " kind name
      if hpa_now && not stored.hpa_present
          then return_early (
              refusal preflight_failed (text "HPA created after confirmation; refusing to scale")
                true)
          else do
            mutate cl (scale_patch resource ns name replicas)
            pure (
                refusal success
                  (text kind
                    <> text " "
                    <> quoted name
                    <> text " scaled to "
                    <> number replicas
                    <> text " replicas.")
                  true)

abbrev pub scale_want : ClusterClient → String → String → String → ℤ → String → Bool → Pending
scale_want cl kind name ns replicas uid hpa_owns = record {
  action = "scale";
  api_group = "apps";
  kind = kind;
  name = name;
  namespace = ns;
  uid = uid;
  context = cl.context_name;
  replicas = some replicas;
  grace = none;
  cordon = none;
  hpa_present = hpa_owns;
  expires = 0;
}

-- the answer of the first call
abbrev pub scale_plan : ClusterClient → ℤ → Scaled → Bool → Result → Result
scale_plan cl replicas target hpa_owns r = record r {
  risk = if hpa_owns then critical else high;
  authorized = true;
  blast_radius =
      count_entry "from" target.current
      ∷ count_entry "to" replicas
      ∷ text_entry "context" cl.context_name
      ∷ [];
  preconditions =
      (text "current=" <> number target.current <> text " requested=" <> number replicas)
      ∷ (needs_confirmation
          ++ (if hpa_owns
              then text "HPA owns replica count; scaling may be reverted" ∷ []
              else []));
}

-- Scale, of a kind in its normal form and with its resource
unfoldable pub scale_resource :
    Env → Engine → String → String → String → String → ℤ → String → String → Step Result Result
scale_resource env e kind resource name ns replicas confirm_id kube_ctx = do
  cl ← or_return error_result (cluster_for e kube_ctx)
  require_allowed cl "patch" resource "apps" ns name
  target ← scale_target cl ns kind name
  hpa_owns ← require_hpas cl ns "HPA visibility limited: " kind name
  confirmed ← confirm env (scale_want cl kind name ns replicas target.uid hpa_owns) confirm_id
  unless_confirmed (scale_plan cl replicas target hpa_owns)
      (scale_execute cl ns kind resource name replicas) confirmed

-- the `default` of the `switch` on the kind, or what follows the `switch`
unfoldable pub scale_known :
    Env
    → Engine
    → String
    → String
    → String
    → ℤ
    → String
    → String
    → Option String
    → Step Result Result
scale_known env e raw_kind name ns replicas confirm_id kube_ctx none =
    return_early (
      refusal error (text "scaling not supported for kind " <> text (normalize_kind raw_kind))
        false)
scale_known env e raw_kind name ns replicas confirm_id kube_ctx (some resource) =
    scale_resource env e (normalize_kind raw_kind) resource name ns replicas confirm_id kube_ctx

-- Scale
unfoldable pub scale :
    Env → Engine → String → String → String → ℤ → String → String → Step Result Result
unfolding scale_known
scale env e raw_kind name ns replicas confirm_id kube_ctx =
    if not e.cfg.actions_enabled
    then return_early disabled_result
    else if is_negative replicas
    then return_early (refusal error (text "replicas cannot be negative") false)
    else if ℤ_lt e.cfg.max_replicas replicas
    then return_early (
        refusal error
          (text "replicas "
            <> number replicas
            <> text " exceeds configured maximum "
            <> number e.cfg.max_replicas)
          false)
    else scale_known env e raw_kind name ns replicas confirm_id kube_ctx
        (scaled_resource (normalize_kind raw_kind))
