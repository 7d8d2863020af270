-- ===== src/Examples/Actions.antt =====
-- internal/action: the four handlers on a small cluster.
use kube_sre_mcp.Prelude.{refl, false, true, ◌⊎◌}
use kube_sre_mcp.Prelude.Int.{pos}
use kube_sre_mcp.Prelude.Map.{lookup}
use kube_sre_mcp.Action.Store.{Pending}
use kube_sre_mcp.Action.Store.Expiry.{IsValid}
use kube_sre_mcp.Action.Cluster.{finish}
use kube_sre_mcp.Action.Rules.Changes.{Refused}
use kube_sre_mcp.Action.Rules.Tokens.{Confirmed}
use kube_sre_mcp.Action.Restart.{restart_deployment}
use kube_sre_mcp.Action.Restart.Safety.{RestartAllowed, restart-Confirmed}
use kube_sre_mcp.Action.Scale.{scale}
use kube_sre_mcp.Action.Scale.Safety.{ScaleAllowed, scale-Confirmed}
use kube_sre_mcp.Action.DeletePod.{delete_pod}
use kube_sre_mcp.Action.DeletePod.Safety.{DeleteAllowed, delete-Confirmed}
use kube_sre_mcp.Action.Cordon.{cordon_node}
use kube_sre_mcp.Action.Cordon.Safety.{CordonAllowed, cordon-Confirmed}
use kube_sre_mcp.Examples.Cluster.{
  environment, engine, store, world, held_for, delete_pending, cordon_pending, scale_pending,
}

pub store-IsValid : IsValid store
unfolding lookup
store-IsValid = (refl, tt)

restart-Confirmed_example :
    let o = restart_deployment environment engine "web" "shop" "0aff" "CRASH_LOOP" "" false world in
    Refused world o.1 (finish o.0)
    ⊎ Confirmed environment "0aff"
        (RestartAllowed environment engine "web" "shop" "" world.history)
        world
        o.1
        (finish o.0)
restart-Confirmed_example =
    restart-Confirmed environment engine "web" "shop" "0aff" "CRASH_LOOP" "" false world
      store-IsValid

held_for-IsValid : (p : Pending) → IsValid (held_for p).store
unfolding lookup
held_for-IsValid p = (refl, tt)

scale-Confirmed_example :
    let w = held_for scale_pending in
    let o = scale environment engine "deploy" "web" "shop" (pos 5) "0aff" "" w in
    Refused w o.1 (finish o.0)
    ⊎ Confirmed environment "0aff"
        (ScaleAllowed engine "deploy" "web" "shop" (pos 5) "" w.history)
        w
        o.1
        (finish o.0)
scale-Confirmed_example =
    scale-Confirmed environment engine "deploy" "web" "shop" (pos 5) "0aff" ""
      (held_for scale_pending) (held_for-IsValid scale_pending)

delete-Confirmed_example :
    let w = held_for delete_pending in
    let o = delete_pod environment engine "web-1" "shop" (pos 30) "0aff" "" w in
    Refused w o.1 (finish o.0)
    ⊎ Confirmed environment "0aff"
        (DeleteAllowed environment engine "web-1" "shop" (pos 30) "" w.history)
        w
        o.1
        (finish o.0)
delete-Confirmed_example =
    delete-Confirmed environment engine "web-1" "shop" (pos 30) "0aff" "" (held_for delete_pending)
      (held_for-IsValid delete_pending)

cordon-Confirmed_example :
    let w = held_for cordon_pending in
    let o = cordon_node environment engine "a" "0aff" "" true w in
    Refused w o.1 (finish o.0)
    ⊎ Confirmed environment "0aff" (CordonAllowed engine "a" "" true w.history) w o.1 (finish o.0)
cordon-Confirmed_example =
    cordon-Confirmed environment engine "a" "0aff" "" true (held_for cordon_pending)
      (held_for-IsValid cordon_pending)
