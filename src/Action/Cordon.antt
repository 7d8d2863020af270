-- ===== src/Action/Cordon.antt =====
-- internal/action/engine.go: Cordon, which also uncordons.
pub mod Safety
pub mod Progress
use kube_sre_mcp.Prelude.{
  ℕ, String, Bool, true, false, not, ◌&&◌, ◌||◌, Option, none, some, List, [], ◌∷◌, ◌++◌, ◌==◌,
  if◌then◌else◌, leb,
}
use kube_sre_mcp.Prelude.Int.{pos}
use kube_sre_mcp.Message.{Message, text, quoted, boolean, ◌<>◌}
use kube_sre_mcp.Kube.Types.{value_of, Node}
use kube_sre_mcp.Action.Store.{Pending}
use kube_sre_mcp.Action.Cluster.{
  Reply, Call, get, list, patch, strategic_merge_patch, ClusterClient, Env, Step, pure,
  return_early, send, or_return, ◌>>=◌, ◌>>◌,
}
use kube_sre_mcp.Action.Guards.{node_ready, count_schedulable}
use kube_sre_mcp.Action.Engine.{
  Result, Engine, Risk, count_entry, text_entry, medium, high, critical, success, error, refusal,
  preflight_failed, err_msg, error_result, authorized_error, disabled_result, cluster_for, confirm,
  require_allowed, mutate, recreated, unless_confirmed, needs_confirmation,
}

-- whether the node is one of the schedulable Ready ones
abbrev pub is_schedulable : Node → Bool
is_schedulable n = not n.unschedulable && node_ready n

abbrev pub last_node : ℕ → Result
last_node sched =
    record (refusal error (text "refusing to cordon the last schedulable Ready node") false) {
      risk = critical;
      blast_radius = count_entry "schedulable_ready_nodes" (pos sched) ∷ [];
    }

-- the patch that Cordon sends
abbrev pub cordon_patch : String → Bool → Call
cordon_patch name cordon =
    patch "nodes" "" name strategic_merge_patch
      (text "{\"spec\":{\"unschedulable\":" <> boolean cordon <> text "}}")

module _ (cl : ClusterClient) where
  -- the block under `if cordon`, with the `Authorized` of its answer to an error
  unfoldable pub require_other_node : Bool → Node → Step Result (Unit {0})
  require_other_node authorized target = do
    reply ← send cl (list "nodes" "" "") (λ h. cl.api.list_nodes h)
    nodes ← or_return (λ e. refusal preflight_failed (err_msg e) authorized) reply
    let sched = count_schedulable nodes
    if is_schedulable target && leb sched 1 then return_early (last_node sched) else pure tt

  -- what the second call does once its token is taken
  unfoldable pub cordon_execute : String → Bool → Pending → Step Result Result
  cordon_execute name cordon stored = do
    reply ← send cl (get "nodes" "" name) (λ h. cl.api.get_node h name)
    live ← or_return authorized_error reply
    if not (live.uid == stored.uid) then return_early recreated else do
      if cordon then require_other_node true live else pure tt
      mutate cl (cordon_patch name cordon)
      pure (
          refusal success
            (if cordon
              then text "Node " <> quoted name <> text " cordoned (unschedulable)."
              else text "Node " <> quoted name <> text " uncordoned (scheduling enabled).")
            true)

abbrev is_control_plane : Node → Bool
is_control_plane n =
    not (value_of n.labels "node-role.kubernetes.io/control-plane" == "")
    || not (value_of n.labels "node-role.kubernetes.io/master" == "")

unfoldable pub cordon_risk : Bool → Node → Risk
cordon_risk cordon n = if cordon then (if is_control_plane n then critical else high) else medium

unfoldable pub cordon_preconditions : Bool → Node → List Message
cordon_preconditions cordon n =
    needs_confirmation
    ++ (if cordon && is_control_plane n then text "control-plane node" ∷ [] else [])

abbrev pub cordon_action : Bool → String
cordon_action cordon = if cordon then "cordon" else "uncordon"

abbrev pub cordon_want : ClusterClient → String → Bool → Node → Pending
cordon_want cl name cordon target = record {
  action = cordon_action cordon;
  api_group = "";
  kind = "Node";
  name = name;
  namespace = "";
  uid = target.uid;
  context = cl.context_name;
  replicas = none;
  grace = none;
  cordon = some cordon;
  hpa_present = false;
  expires = 0;
}

-- the answer of the first call
abbrev pub cordon_plan : ClusterClient → Bool → Node → Result → Result
cordon_plan cl cordon target r = record r {
  risk = cordon_risk cordon target;
  authorized = true;
  preconditions = cordon_preconditions cordon target;
  blast_radius = text_entry "context" cl.context_name ∷ [];
}

-- Cordon
unfoldable pub cordon_node : Env → Engine → String → String → String → Bool → Step Result Result
cordon_node env e name confirm_id kube_ctx cordon =
    if not e.cfg.actions_enabled then return_early disabled_result else do
      cl ← or_return error_result (cluster_for e kube_ctx)
      require_allowed cl "patch" "nodes" "" "" name
      reply ← send cl (get "nodes" "" name) (λ h. cl.api.get_node h name)
      target ← or_return error_result reply
      if cordon then require_other_node cl false target else pure tt
      confirmed ← confirm env (cordon_want cl name cordon target) confirm_id
      unless_confirmed (cordon_plan cl cordon target) (cordon_execute cl name cordon) confirmed
