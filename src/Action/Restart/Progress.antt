-- ===== src/Action/Restart/Progress.antt =====
-- internal/action/engine.go: RestartDeployment goes through where nothing stands against it.
use kube_sre_mcp.Prelude.{
  ℕ, String, Option, none, ◌≡◌, refl, Bool, true, false, not, ◌==◌, ◌&&◌, some, List, eq_refl,
  arith,
}
use kube_sre_mcp.Recommendation.{restart_useful}
use kube_sre_mcp.Kube.Types.{Deployment, LabelSelector, PodDisruptionBudget, AccessReview}
use kube_sre_mcp.Action.Store.{ok, Pending, Store}
use kube_sre_mcp.Action.Cluster.{History, ClusterClient, Env, World, finish, return_early}
use kube_sre_mcp.Action.Guards.{pdb_matches_workload}
use kube_sre_mcp.Action.Guards.Budgets.{IsUnblocked}
use kube_sre_mcp.Action.Engine.{success, Engine, BlastEntry, cluster_for}
use kube_sre_mcp.Action.Rules.Success.{
  Gives, Gives-pure, Gives-send, Gives-if_false, Gives-or_return, Gives-mutate, Succeeds,
  Succeeds-bind, Succeeds-if_false, Succeeds-pure, Succeeds-confirm, IsTaken,
}
use kube_sre_mcp.Action.Rules.Steady.{
  Allows, ListsBudgets, Changes, Gives-allowed, Gives-budgets, Succeeds-time_now,
}
use kube_sre_mcp.Action.Restart.{
  require_no_workload_pdb, restart_execute, restart_confirm, restart_want, restart_plan,
  restart_blast, restart_deployment, not_recommended,
}

module _ (env : Env) (cl : ClusterClient) (name ns : String) (id : String) (d : Deployment)
    (budgets : List PodDisruptionBudget) (stored : Pending)
    (found : (h : History) → cl.api.get_deployment h ns name ≡ ok d)
    (listed : ListsBudgets cl ns budgets)
    (free : (sel : LabelSelector)
      → d.selector ≡ some sel
      → IsUnblocked (λ b. pdb_matches_workload env b (some sel)) budgets)
    (changes : Changes cl) (same : stored.uid ≡ d.uid) where
  workload_pdb-Gives :
      (limited : String)
      → Gives (λ _. Unit {0}) (require_no_workload_pdb env cl limited ns d.selector)
  unfolding require_no_workload_pdb
  workload_pdb-Gives limited = go d.selector free
    where
      go :
          (o : Option LabelSelector)
          → ((sel : LabelSelector)
              → o ≡ some sel
              → IsUnblocked (λ b. pdb_matches_workload env b (some sel)) budgets)
          → Gives (λ _. Unit {0}) (require_no_workload_pdb env cl limited ns o)
      go none _ = Gives-pure _ tt
      go (some sel) unblocked = Gives-budgets cl ns limited _ budgets listed (unblocked sel refl)

  restart_execute-Succeeds :
      (blast : List BlastEntry)
      → Succeeds (λ _ _. Unit {0}) (restart_execute env cl name ns blast stored)
  unfolding restart_execute
  restart_execute-Succeeds blast =
      Succeeds-bind _ _ _ (Gives-send {P = λ x. x ≡ ok d} cl _ _ found) λ reply e.
        Succeeds-bind _ _ _ (Gives-or_return _ reply d e) λ live is. rw is (
          Succeeds-if_false _ (not (d.uid == stored.uid)) _ _
            (rw same (ground (arith, eq_refl d.uid)))
            (Succeeds-bind _ _ _ (workload_pdb-Gives _) λ names t. Succeeds-time_now env _ λ at.
              Succeeds-bind _ _ _ (Gives-mutate cl _ (λ h. changes h _))
                λ u t. Succeeds-pure _ _ refl))

  -- Where actions are enabled, the API allows the restart, always answers with this Deployment and
  -- these budgets and makes every change, the category that is given is one that a restart may fix or
  -- the restart is forced, no budget that matches the selector of the Deployment blocks, if it has
  -- one, and the token is taken for this restart of this Deployment, RestartDeployment reports
  -- success.
  pub restart_deployment-Succeeds :
      (e : Engine) (category kube_ctx : String) (force : Bool) (granted : AccessReview) (w : World)
      → e.cfg.actions_enabled ≡ true
      → cluster_for e kube_ctx ≡ ok cl
      → Allows cl granted
      → category == "" ≡ false
      → not (restart_useful category) && not force ≡ false
      → id == "" ≡ false
      → IsTaken env id (restart_want cl name ns d) stored w.store w.readings
      → (finish (restart_deployment env e name ns id category kube_ctx force w).0).status ≡ success
  unfolding restart_deployment restart_confirm
  restart_deployment-Succeeds e category kube_ctx force granted w on chosen allowed known useful n
        taken =
      Succeeds-if_false C (not e.cfg.actions_enabled) _ _ (rw on refl)
        (Succeeds-bind C _ _ (Gives-or_return _ (cluster_for e kube_ctx) cl chosen) λ c is. rw is (
          Succeeds-bind C _ _ (Gives-allowed cl _ _ _ _ _ granted allowed) λ u t.
            Succeeds-bind C _ _ (Gives-send {P = λ x. x ≡ ok d} cl _ _ found) λ reply r.
              Succeeds-bind C _ _ (Gives-or_return _ reply d r) λ q same_object. rw same_object (
                Succeeds-bind C _ _
                  (Gives-if_false (category == "") _ _ known
                    (Gives-pure {P = λ x. x ≡ category} category refl))
                  λ cat given. rw given (
                    Succeeds-if_false C
                      (not (category == "") && not (restart_useful category) && not force)
                      (return_early (not_recommended category)) _ (ground arith)
                      (Succeeds-bind C _ _ (workload_pdb-Gives _) λ names t.
                        Succeeds-confirm env id (restart_want cl name ns d) stored
                          (restart_plan cl category names d) _ n
                          (restart_execute-Succeeds (restart_blast cl d)))))))
        w taken
    where
      C : Store → ℕ → Type 0
      C = IsTaken env id (restart_want cl name ns d) stored
