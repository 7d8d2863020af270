-- ===== src/Action/Scale/Progress.antt =====
-- internal/action/engine.go: Scale goes through for a Deployment where nothing stands against it.
use kube_sre_mcp.Prelude.{
  ℕ, String, ◌≡◌, refl, ap, ◌∙◌, true, false, not, ◌==◌, some, List, eq_refl, arith, any,
}
use kube_sre_mcp.Prelude.Int.{ℤ, is_negative, ℤ_lt}
use kube_sre_mcp.Kube.Kind.{normalize_kind}
use kube_sre_mcp.Kube.Types.{Deployment, HorizontalPodAutoscaler, AccessReview}
use kube_sre_mcp.Action.Store.{ok, Pending, Store}
use kube_sre_mcp.Action.Cluster.{History, ClusterClient, Env, World, finish}
use kube_sre_mcp.Action.Guards.{hpa_matches}
use kube_sre_mcp.Action.Engine.{
  success, Engine, cluster_for, any_hpa, has_hpa_v1, after_hpas_v2, has_hpa, require_hpas,
  current_uid,
}
use kube_sre_mcp.Action.Rules.Success.{
  Gives, Gives-pure, Gives-send, Gives-if_false, Gives-or_return, Gives-bind, Gives-mutate,
  Succeeds, Succeeds-bind, Succeeds-if_false, Succeeds-pure, Succeeds-confirm, IsTaken,
}
use kube_sre_mcp.Action.Rules.Steady.{Allows, Changes, Gives-allowed}
use kube_sre_mcp.Action.Scale.{
  scaled_resource, scale_target, scale_execute, scale_want, scale_plan, scale_resource, scale_known,
  scale,
}

module _ (env : Env) (cl : ClusterClient) (name ns : String) (replicas : ℤ) (id : String)
    (d : Deployment) (v2 v1 : List HorizontalPodAutoscaler) (stored : Pending)
    (found : (h : History) → cl.api.get_deployment h ns name ≡ ok d)
    (listed_v2 : (h : History) → cl.api.list_hpas_v2 h ns ≡ ok v2)
    (listed_v1 : (h : History) → cl.api.list_hpas_v1 h ns ≡ ok v1)
    (free_v2 : any (hpa_matches "Deployment" name) v2 ≡ false)
    (free_v1 : any (hpa_matches "Deployment" name) v1 ≡ false) (changes : Changes cl)
    (same : stored.uid ≡ d.uid) where
  has_hpa-Gives : Gives (λ r. r ≡ ok false) (has_hpa cl ns "Deployment" name)
  unfolding has_hpa after_hpas_v2 has_hpa_v1
  has_hpa-Gives = Gives-bind _ _ (Gives-send {P = λ x. x ≡ ok v2} cl _ _ listed_v2) λ a e. rw e (
      Gives-if_false (any (hpa_matches "Deployment" name) v2) _ _ free_v2 (
        Gives-bind _ _ (Gives-send {P = λ x. x ≡ ok v1} cl _ _ listed_v1)
          λ b f. Gives-pure _ (ap (any_hpa "Deployment" name) f ∙ ap ok free_v1)))

  hpas-Gives :
      (limited : String) → Gives (λ b. b ≡ false) (require_hpas cl ns limited "Deployment" name)
  unfolding require_hpas
  hpas-Gives limited = Gives-bind _ _ has_hpa-Gives λ reply e. Gives-or_return _ reply false e

  uid-Gives : Gives (λ u. u ≡ d.uid) (current_uid cl ns "Deployment" name)
  unfolding current_uid
  uid-Gives = Gives-bind _ _ (Gives-send {P = λ x. x ≡ ok d} cl _ _ found) λ reply e.
      Gives-bind _ _ (Gives-or_return _ reply d e) λ live is. Gives-pure _ (ap (λ x. x.uid) is)

  target-Gives : Gives (λ t. t.uid ≡ d.uid) (scale_target cl ns "Deployment" name)
  unfolding scale_target
  target-Gives = Gives-bind _ _ (Gives-send {P = λ x. x ≡ ok d} cl _ _ found) λ reply e.
      Gives-bind _ _ (Gives-or_return _ reply d e) λ live is. Gives-pure _ (ap (λ x. x.uid) is)

  scale_execute-Succeeds :
      Succeeds
        (λ _ _. Unit {0})
        (scale_execute cl ns "Deployment" "deployments" name replicas stored)
  unfolding scale_execute
  scale_execute-Succeeds = Succeeds-bind _ _ _ uid-Gives λ live is. rw is (
      Succeeds-if_false _ (not (d.uid == stored.uid)) _ _ (rw same (ground (arith, eq_refl d.uid)))
        (Succeeds-bind _ _ _ (hpas-Gives _) λ hpa_now none_now. rw none_now (
          Succeeds-bind _ _ _ (Gives-mutate cl _ (λ h. changes h _))
            λ u t. Succeeds-pure _ _ refl)))

  abbrev Taken : Store → ℕ → Type 0
  Taken = IsTaken env id (scale_want cl "Deployment" name ns replicas d.uid false) stored

  scale_resource-Succeeds :
      (e : Engine) (kube_ctx : String) (granted : AccessReview)
      → cluster_for e kube_ctx ≡ ok cl
      → Allows cl granted
      → id == "" ≡ false
      → Succeeds Taken
          (scale_resource env e "Deployment" "deployments" name ns replicas id kube_ctx)
  unfolding scale_resource
  scale_resource-Succeeds e kube_ctx granted chosen allowed n =
      Succeeds-bind Taken _ _ (Gives-or_return _ (cluster_for e kube_ctx) cl chosen) λ c is. rw is (
        Succeeds-bind Taken _ _ (Gives-allowed cl _ _ _ _ _ granted allowed) λ u t.
          Succeeds-bind Taken _ _ target-Gives λ target uid.
            Succeeds-bind Taken _ _ (hpas-Gives _) λ owns none_owns. rw none_owns (
              rw uid (
                Succeeds-confirm env id (scale_want cl "Deployment" name ns replicas d.uid false)
                  stored (scale_plan cl replicas target false) _ n scale_execute-Succeeds)))

  scale_known-Succeeds :
      (e : Engine) (raw_kind kube_ctx : String)
      → normalize_kind raw_kind ≡ "Deployment"
      → Succeeds Taken
          (scale_resource env e "Deployment" "deployments" name ns replicas id kube_ctx)
      → Succeeds Taken (
          scale_known env e raw_kind name ns replicas id kube_ctx
            (scaled_resource (normalize_kind raw_kind)))
  unfolding scale_known scaled_resource
  scale_known-Succeeds e raw_kind kube_ctx kind h =
      rw (resource (normalize_kind raw_kind) kind) (rw kind h)
    where
      resource : (k : String) → k ≡ "Deployment" → scaled_resource k ≡ some "deployments"
      resource k e = rw e refl

  -- Where actions are enabled, the number of replicas is neither negative nor above the maximum, the
  -- kind is a name of Deployment, the API allows the change, always answers with this Deployment and
  -- with autoscalers none of which scales it and makes every change, and the token is taken for this
  -- scaling of this Deployment, Scale reports success.
  pub scale-Succeeds :
      (e : Engine) (raw_kind kube_ctx : String) (granted : AccessReview) (w : World)
      → e.cfg.actions_enabled ≡ true
      → is_negative replicas ≡ false
      → ℤ_lt e.cfg.max_replicas replicas ≡ false
      → normalize_kind raw_kind ≡ "Deployment"
      → cluster_for e kube_ctx ≡ ok cl
      → Allows cl granted
      → id == "" ≡ false
      → IsTaken env id
          (scale_want cl "Deployment" name ns replicas d.uid false)
          stored
          w.store
          w.readings
      → (finish (scale env e raw_kind name ns replicas id kube_ctx w).0).status ≡ success
  unfolding scale
  scale-Succeeds e raw_kind kube_ctx granted w on no_negative bounded kind chosen allowed n taken =
      Succeeds-if_false Taken (not e.cfg.actions_enabled) _ _ (rw on refl)
        (Succeeds-if_false Taken (is_negative replicas) _ _ no_negative (
          Succeeds-if_false Taken (ℤ_lt e.cfg.max_replicas replicas) _ _ bounded (
            scale_known-Succeeds e raw_kind kube_ctx kind
              (scale_resource-Succeeds e kube_ctx granted chosen allowed n))))
        w taken
