-- ===== src/Action/DeletePod.antt =====
-- internal/action/engine.go: DeletePod.
pub mod Safety
pub mod Progress
use kube_sre_mcp.Prelude.{
  String, Bool, true, false, not, ◌&&◌, ◌||◌, Option, none, some, List, [], ◌∷◌, ◌++◌, ◌==◌,
  if◌then◌else◌, is_empty,
}
use kube_sre_mcp.Prelude.Int.{ℤ}
use kube_sre_mcp.Message.{Message, text, quoted, ◌<>◌}
use kube_sre_mcp.Kube.Types.{Pod}
use kube_sre_mcp.Action.Store.{Pending}
use kube_sre_mcp.Action.Cluster.{
  get, delete, ClusterClient, Env, Step, pure, return_early, send, or_return, ◌>>=◌, ◌>>◌,
}
use kube_sre_mcp.Action.Guards.{is_control_plane_pod, is_mirror_pod, owner_kind, pdb_matches_pod}
use kube_sre_mcp.Action.Engine.{
  Result, Engine, Risk, flag_entry, text_entry, high, critical, success, error, refusal,
  error_result, authorized_error, disabled_result, cluster_for, confirm, require_allowed, mutate,
  require_no_pdb_block, recreated, unless_confirmed, needs_confirmation,
}

module _ (env : Env) (cl : ClusterClient) where
  -- what the second call does once its token is taken
  unfoldable pub delete_execute : String → String → ℤ → Pending → Step Result Result
  delete_execute name ns grace stored = do
    reply ← send cl (get "pods" ns name) (λ h. cl.api.get_pod h ns name)
    live ← or_return authorized_error reply
    if not (live.uid == stored.uid) then return_early recreated else do
      require_no_pdb_block cl live.namespace "PDB visibility limited at execution: "
          (pdb_matches_pod env live)
      mutate cl (delete "pods" ns name grace)
      pure (refusal success (text "Pod " <> quoted name <> text " deleted.") true)

abbrev is_unmanaged : Pod → Bool
is_unmanaged p = is_empty p.owner_references

abbrev is_recreated_elsewhere : Pod → Bool
is_recreated_elsewhere p = owner_kind p == "DaemonSet" || owner_kind p == "Job"

unfoldable pub delete_preconditions : Pod → List Message
delete_preconditions p =
    needs_confirmation
    ++ (if is_unmanaged p
        then text "pod has no ownerReferences (unmanaged)" ∷ []
        else if is_recreated_elsewhere p
        then (text "pod is owned by " <> text (owner_kind p)) ∷ []
        else [])
    ++ (if p.namespace == "kube-system" then text "kube-system namespace" ∷ [] else [])

unfoldable pub delete_risk : Pod → Risk
delete_risk p =
    if is_unmanaged p || is_recreated_elsewhere p || p.namespace == "kube-system"
    then critical
    else high

abbrev pub delete_want : ClusterClient → String → String → ℤ → Pod → Pending
delete_want cl name ns grace p = record {
  action = "delete_pod";
  api_group = "";
  kind = "Pod";
  name = name;
  namespace = ns;
  uid = p.uid;
  context = cl.context_name;
  replicas = none;
  grace = some grace;
  cordon = none;
  hpa_present = false;
  expires = 0;
}

-- the answer of the first call
abbrev pub delete_plan : ClusterClient → Pod → Result → Result
delete_plan cl p r = record r {
  risk = delete_risk p;
  authorized = true;
  blast_radius =
      flag_entry "unmanaged" (is_unmanaged p) ∷ text_entry "context" cl.context_name ∷ [];
  preconditions = delete_preconditions p;
}

-- from the first look at the budgets on
unfoldable pub delete_confirm :
    Env → ClusterClient → String → String → ℤ → String → Pod → Step Result Result
delete_confirm env cl name ns grace confirm_id p = do
  require_no_pdb_block cl p.namespace "PDB visibility limited: " (pdb_matches_pod env p)
  confirmed ← confirm env (delete_want cl name ns grace p) confirm_id
  unless_confirmed (delete_plan cl p) (delete_execute env cl name ns grace) confirmed

-- DeletePod
unfoldable pub delete_pod :
    Env → Engine → String → String → ℤ → String → String → Step Result Result
delete_pod env e name ns grace confirm_id kube_ctx =
    if not e.cfg.actions_enabled then return_early disabled_result else do
      cl ← or_return error_result (cluster_for e kube_ctx)
      require_allowed cl "delete" "pods" "" ns name
      reply ← send cl (get "pods" ns name) (λ h. cl.api.get_pod h ns name)
      p ← or_return error_result reply
      if is_control_plane_pod p
          then return_early
              (refusal error (text "refusing to delete control-plane/system pod") false)
          else if is_mirror_pod p
          then return_early (refusal error (text "refusing to delete static/mirror pod") false)
          else do delete_confirm env cl name ns grace confirm_id p
