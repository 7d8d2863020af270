-- ===== src/Action/Restart.antt =====
-- internal/action/engine.go: RestartDeployment.
pub mod Safety
pub mod Progress
use kube_sre_mcp.Prelude.{
  ℕ, String, Bool, true, false, not, ◌&&◌, Option, none, some, List, [], ◌∷◌, ◌++◌, ◌==◌,
  if◌then◌else◌, is_empty,
}
use kube_sre_mcp.Prelude.Int.{ℤ, pos}
use kube_sre_mcp.Message.{Message, text, quoted, names, rfc3339, ◌<>◌}
use kube_sre_mcp.Recommendation.{restart_useful}
use kube_sre_mcp.Kube.Types.{LabelSelector, Pod, Deployment}
use kube_sre_mcp.Action.Store.{ok, err, Pending}
use kube_sre_mcp.Action.Cluster.{
  Reply, Call, get, list, patch, strategic_merge_patch, ClusterClient, Env, Step, pure,
  return_early, send, or_return, ◌>>=◌, ◌>>◌,
}
use kube_sre_mcp.Action.Guards.{pdb_matches_workload, category_of_pods}
use kube_sre_mcp.Action.Engine.{
  Result, Engine, BlastEntry, count_entry, text_entry, high, critical, success, error,
  restart_not_recommended, refusal, error_result, authorized_error, disabled_result, cluster_for,
  confirm, require_allowed, time_now, mutate, require_no_pdb_block, recreated, unless_confirmed,
  needs_confirmation,
}

abbrev formatted : Env → Option LabelSelector → String
formatted env none = ""
formatted env (some sel) = env.format_label_selector sel

abbrev category_of_reply : Reply (List Pod) → String
category_of_reply (err e) = ""
category_of_reply (ok pods) = category_of_pods pods

-- the patch that RestartDeployment sends, with the time of the restart
abbrev pub restart_patch : String → String → ℕ → Call
restart_patch ns name at = patch "deployments" ns name strategic_merge_patch (
    text
      "{\"spec\":{\"template\":{\"metadata\":{\"annotations\":{\"kubectl.kubernetes.io/restartedAt\":\""
    <> rfc3339 at
    <> text "\"}}}}}")

module _ (env : Env) (cl : ClusterClient) where
  -- inferRestartCategory
  unfoldable pub infer_restart_category : Deployment → Step Result String
  infer_restart_category d = do
    let sel = formatted env d.selector
    reply ← send cl (list "pods" d.namespace sel) (λ h. cl.api.list_pods h d.namespace sel)
    pure (category_of_reply reply)

  -- no selector, no request
  unfoldable pub require_no_workload_pdb :
      String → String → Option LabelSelector → Step Result (List String)
  require_no_workload_pdb limited ns none = pure []
  require_no_workload_pdb limited ns (some sel) =
      require_no_pdb_block cl ns limited (λ p. pdb_matches_workload env p (some sel))

  -- what the second call does once its token is taken
  unfoldable pub restart_execute : String → String → List BlastEntry → Pending → Step Result Result
  restart_execute name ns blast stored = do
    reply ← send cl (get "deployments" ns name) (λ h. cl.api.get_deployment h ns name)
    live ← or_return authorized_error reply
    if not (live.uid == stored.uid) then return_early recreated else do
      require_no_workload_pdb "PDB visibility limited at execution: " ns live.selector
      at ← time_now env
      mutate cl (restart_patch ns name at)
      pure
          (record (refusal success
            (text "Deployment " <> quoted name <> text " rollout restart triggered.") true) {
              blast_radius = blast;
            })

abbrev replicas_or : ℤ → Option ℤ → ℤ
replicas_or def none = def
replicas_or def (some n) = n

abbrev unlikely : String → Bool
unlikely cat = not (restart_useful cat) && not (cat == "")

abbrev pub restart_want : ClusterClient → String → String → Deployment → Pending
restart_want cl name ns d = record {
  action = "restart_deployment";
  api_group = "apps";
  kind = "Deployment";
  name = name;
  namespace = ns;
  uid = d.uid;
  context = cl.context_name;
  replicas = none;
  grace = none;
  cordon = none;
  hpa_present = false;
  expires = 0;
}

abbrev pub not_recommended : String → Result
not_recommended cat =
    record (refusal restart_not_recommended (text "restart is unlikely to fix " <> text cat) true) {
      action = "restart_deployment";
    }

abbrev pub restart_blast : ClusterClient → Deployment → List BlastEntry
restart_blast cl d =
    count_entry "desired" (replicas_or (pos 1) d.replicas)
    ∷ count_entry "available" d.available_replicas
    ∷ text_entry "strategy" d.strategy
    ∷ text_entry "context" cl.context_name
    ∷ []

-- the answer of the first call
abbrev pub restart_plan : ClusterClient → String → List String → Deployment → Result → Result
restart_plan cl cat pdb_names d r = record r {
  risk = if unlikely cat then critical else high;
  authorized = true;
  blast_radius = restart_blast cl d;
  preconditions =
      needs_confirmation
      ++ (if unlikely cat then (text "Restart is unlikely to fix " <> text cat) ∷ [] else [])
      ++ (if is_empty pdb_names then [] else (text "PDB present: " <> names pdb_names) ∷ []);
}

-- from the first look at the budgets on
unfoldable pub restart_confirm :
    Env → ClusterClient → String → String → String → String → Deployment → Step Result Result
restart_confirm env cl name ns confirm_id cat d = do
  pdb_names ← require_no_workload_pdb env cl "PDB visibility limited: " ns d.selector
  confirmed ← confirm env (restart_want cl name ns d) confirm_id
  unless_confirmed (restart_plan cl cat pdb_names d)
      (restart_execute env cl name ns (restart_blast cl d)) confirmed

-- RestartDeployment
unfoldable pub restart_deployment :
    Env → Engine → String → String → String → String → String → Bool → Step Result Result
restart_deployment env e name ns confirm_id rca_category kube_ctx force =
    if not e.cfg.actions_enabled then return_early disabled_result else do
      cl ← or_return error_result (cluster_for e kube_ctx)
      require_allowed cl "patch" "deployments" "apps" ns name
      reply ← send cl (get "deployments" ns name) (λ h. cl.api.get_deployment h ns name)
      d ← or_return error_result reply
      cat ← if rca_category == "" then infer_restart_category env cl d else pure rca_category
      if not (cat == "") && not (restart_useful cat) && not force
          then return_early (not_recommended cat)
          else do restart_confirm env cl name ns confirm_id cat d
