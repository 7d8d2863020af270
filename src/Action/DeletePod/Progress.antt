-- ===== src/Action/DeletePod/Progress.antt =====
-- internal/action/engine.go: DeletePod goes through where nothing stands against it.
use kube_sre_mcp.Prelude.{ℕ, String, ◌≡◌, refl, true, false, not, ◌==◌, List, eq_refl, arith}
use kube_sre_mcp.Prelude.Int.{ℤ}
use kube_sre_mcp.Kube.Types.{Pod, PodDisruptionBudget, AccessReview}
use kube_sre_mcp.Action.Store.{ok, Pending, Store}
use kube_sre_mcp.Action.Cluster.{History, ClusterClient, Env, World, finish}
use kube_sre_mcp.Action.Guards.{is_control_plane_pod, is_mirror_pod, pdb_matches_pod}
use kube_sre_mcp.Action.Guards.Budgets.{IsUnblocked}
use kube_sre_mcp.Action.Engine.{success, Engine, cluster_for}
use kube_sre_mcp.Action.Rules.Success.{
  Gives-send, Gives-or_return, Gives-mutate, Succeeds, Succeeds-bind, Succeeds-if_false,
  Succeeds-pure, Succeeds-confirm, IsTaken,
}
use kube_sre_mcp.Action.Rules.Steady.{Allows, ListsBudgets, Changes, Gives-allowed, Gives-budgets}
use kube_sre_mcp.Action.DeletePod.{
  delete_execute, delete_confirm, delete_pod, delete_want, delete_plan,
}

module _ (env : Env) (cl : ClusterClient) (name ns : String) (grace : ℤ) (id : String) (p : Pod)
    (budgets : List PodDisruptionBudget) (stored : Pending)
    (found : (h : History) → cl.api.get_pod h ns name ≡ ok p)
    (listed : ListsBudgets cl p.namespace budgets)
    (free : IsUnblocked (pdb_matches_pod env p) budgets) (changes : Changes cl)
    (same : stored.uid ≡ p.uid) where
  delete_execute-Succeeds : Succeeds (λ _ _. Unit {0}) (delete_execute env cl name ns grace stored)
  unfolding delete_execute
  delete_execute-Succeeds =
      Succeeds-bind _ _ _ (Gives-send {P = λ x. x ≡ ok p} cl _ _ found) λ reply e.
        Succeeds-bind _ _ _ (Gives-or_return _ reply p e) λ live is. rw is (
          Succeeds-if_false _ (not (p.uid == stored.uid)) _ _
            (rw same (ground (arith, eq_refl p.uid)))
            (Succeeds-bind _ _ _ (Gives-budgets cl p.namespace _ _ budgets listed free) λ names t.
              Succeeds-bind _ _ _ (Gives-mutate cl _ (λ h. changes h _))
                λ u t. Succeeds-pure _ _ refl))

  delete_confirm-Succeeds :
      id == "" ≡ false
      → Succeeds
          (IsTaken env id (delete_want cl name ns grace p) stored)
          (delete_confirm env cl name ns grace id p)
  unfolding delete_confirm
  delete_confirm-Succeeds n =
      Succeeds-bind _ _ _ (Gives-budgets cl p.namespace _ _ budgets listed free) λ names t.
        Succeeds-confirm env id (delete_want cl name ns grace p) stored (delete_plan cl p) _ n
          delete_execute-Succeeds

  -- Where actions are enabled, the API allows the deletion, always answers with this pod and these
  -- budgets and makes every change, the pod is neither of the control plane nor a mirror, no matching
  -- budget blocks, and the token is taken for this deletion of this pod, DeletePod reports success.
  pub delete_pod-Succeeds :
      (e : Engine) (kube_ctx : String) (granted : AccessReview) (w : World)
      → e.cfg.actions_enabled ≡ true
      → cluster_for e kube_ctx ≡ ok cl
      → Allows cl granted
      → is_control_plane_pod p ≡ false
      → is_mirror_pod p ≡ false
      → id == "" ≡ false
      → IsTaken env id (delete_want cl name ns grace p) stored w.store w.readings
      → (finish (delete_pod env e name ns grace id kube_ctx w).0).status ≡ success
  unfolding delete_pod
  delete_pod-Succeeds e kube_ctx granted w on chosen allowed no_plane no_mirror n taken =
      Succeeds-if_false C (not e.cfg.actions_enabled) _ _ (rw on refl)
        (Succeeds-bind C _ _ (Gives-or_return _ (cluster_for e kube_ctx) cl chosen) λ c is. rw is (
          Succeeds-bind C _ _ (Gives-allowed cl _ _ _ _ _ granted allowed) λ u t.
            Succeeds-bind C _ _ (Gives-send {P = λ x. x ≡ ok p} cl _ _ found) λ reply r.
              Succeeds-bind C _ _ (Gives-or_return _ reply p r) λ q same_pod. rw same_pod (
                Succeeds-if_false C (is_control_plane_pod p) _ _ no_plane (
                  Succeeds-if_false C (is_mirror_pod p) _ _ no_mirror
                    (delete_confirm-Succeeds n)))))
        w taken
    where
      C : Store → ℕ → Type 0
      C = IsTaken env id (delete_want cl name ns grace p) stored
