-- ===== src/Examples/Progress.antt =====
-- internal/action/engine.go: second calls that go through, on the small cluster.
use kube_sre_mcp.Prelude.{◌≡◌, ◌≢◌, refl, true, false, not, ◌&&◌, [], ◌∷◌, arith}
use kube_sre_mcp.Prelude.Int.{pos}
use kube_sre_mcp.Prelude.Map.{lookup, keep}
use kube_sre_mcp.Recommendation.{restart_useful}
use kube_sre_mcp.Action.Store.{ok, take, gc, bind_match, int32_eq, int64_eq, bool_pointer_eq}
use kube_sre_mcp.Action.Cluster.{finish}
use kube_sre_mcp.Action.Guards.{is_control_plane_pod, is_mirror_pod, count_schedulable, node_ready}
use kube_sre_mcp.Action.Engine.{success, cluster_for}
use kube_sre_mcp.Action.Rules.Success.{IsTaken}
use kube_sre_mcp.Kube.Kind.{normalize_kind}
use kube_sre_mcp.Prelude.Text.{to_lower}
use kube_sre_mcp.Action.Scale.{scale, scale_want}
use kube_sre_mcp.Action.Scale.Progress.{scale-Succeeds}
use kube_sre_mcp.Action.DeletePod.{delete_pod, delete_want}
use kube_sre_mcp.Action.DeletePod.Progress.{delete_pod-Succeeds}
use kube_sre_mcp.Action.Restart.{restart_deployment, restart_want}
use kube_sre_mcp.Action.Restart.Progress.{restart_deployment-Succeeds}
use kube_sre_mcp.Action.Cordon.{cordon_node, cordon_want}
use kube_sre_mcp.Action.Cordon.Progress.{is_last, cordon_node-Succeeds}
use kube_sre_mcp.Examples.Cluster.{
  environment, engine, client, web, web_pod, worker, budget, world, restart_pending, held_for,
  delete_pending, cordon_pending, scale_pending,
}

chosen : cluster_for engine "" ≡ ok client
unfolding cluster_for
chosen = refl

one_allowed : pos 1 ≢ pos 0
one_allowed e = ground arith

delete-IsTaken :
    IsTaken environment "0aff"
      (delete_want client "web-1" "shop" (pos 30) web_pod)
      delete_pending
      (held_for delete_pending).store
      0
unfolding take gc keep lookup bind_match int32_eq int64_eq bool_pointer_eq
delete-IsTaken = refl

restart-IsTaken :
    IsTaken environment "0aff" (restart_want client "web" "shop" web) restart_pending world.store 0
unfolding take gc keep lookup bind_match int32_eq int64_eq bool_pointer_eq
restart-IsTaken = refl

cordon-IsTaken :
    IsTaken environment "0aff"
      (cordon_want client "a" true (worker "a"))
      cordon_pending
      (held_for cordon_pending).store
      0
unfolding take gc keep lookup bind_match int32_eq int64_eq bool_pointer_eq
cordon-IsTaken = refl

no_plane : is_control_plane_pod web_pod ≡ false
unfolding is_control_plane_pod lookup
no_plane = refl

no_mirror : is_mirror_pod web_pod ≡ false
unfolding is_mirror_pod lookup
no_mirror = refl

useful : not (restart_useful "CRASH_LOOP") && not false ≡ false
unfolding restart_useful
useful = refl

another_node : is_last true (worker "a") (worker "a" ∷ worker "b" ∷ []) ≡ false
unfolding count_schedulable node_ready
another_node = refl

delete_pod-Succeeds_example :
    (finish
      (delete_pod environment engine "web-1" "shop"
        (pos 30)
        "0aff"
        ""
        (held_for delete_pending)).0).status
    ≡ success
delete_pod-Succeeds_example =
    delete_pod-Succeeds environment client "web-1" "shop" (pos 30) "0aff" web_pod (budget ∷ [])
      delete_pending (λ h. refl) (λ h. refl) ((λ m. one_allowed), tt) (λ h c. refl) refl engine ""
      (record { allowed = true; reason = "" }) (held_for delete_pending) refl chosen
      (refl, λ h a. refl) no_plane no_mirror refl delete-IsTaken

restart_deployment-Succeeds_example :
    (finish
      (restart_deployment environment engine "web" "shop" "0aff" "CRASH_LOOP" "" false
        world).0).status
    ≡ success
restart_deployment-Succeeds_example =
    restart_deployment-Succeeds environment client "web" "shop" "0aff" web (budget ∷ [])
      restart_pending (λ h. refl) (λ h. refl) (λ sel _. ((λ m. one_allowed), tt)) (λ h c. refl) refl
      engine "CRASH_LOOP" "" false (record { allowed = true; reason = "" }) world refl chosen
      (refl, λ h a. refl) refl useful refl restart-IsTaken

cordon_node-Succeeds_example :
    (finish (cordon_node environment engine "a" "0aff" "" true (held_for cordon_pending)).0).status
    ≡ success
cordon_node-Succeeds_example =
    cordon_node-Succeeds environment client "a" "0aff" true (worker "a")
      (worker "a" ∷ worker "b" ∷ []) cordon_pending (λ h. refl) (λ h. refl) another_node
      (λ h c. refl) refl engine "" (record { allowed = true; reason = "" })
      (held_for cordon_pending) refl chosen (refl, λ h a. refl) refl cordon-IsTaken

scale-IsTaken :
    IsTaken environment "0aff"
      (scale_want client "Deployment" "web" "shop" (pos 5) "uid-web" false)
      scale_pending
      (held_for scale_pending).store
      0
unfolding take gc keep lookup bind_match int32_eq int64_eq bool_pointer_eq
scale-IsTaken = refl

deployment_alias : normalize_kind "deploy" ≡ "Deployment"
unfolding normalize_kind lookup to_lower
deployment_alias = refl

scale-Succeeds_example :
    (finish
      (scale environment engine "deploy" "web" "shop"
        (pos 5)
        "0aff"
        ""
        (held_for scale_pending)).0).status
    ≡ success
scale-Succeeds_example =
    scale-Succeeds environment client "web" "shop" (pos 5) "0aff" web [] [] scale_pending
      (λ h. refl) (λ h. refl) (λ h. refl) refl refl (λ h c. refl) refl engine "deploy" ""
      (record { allowed = true; reason = "" }) (held_for scale_pending) refl refl refl
      deployment_alias chosen (refl, λ h a. refl) refl scale-IsTaken
