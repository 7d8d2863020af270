-- ===== src/Action/Cordon/Progress.antt =====
-- internal/action/engine.go: Cordon goes through where nothing stands against it.
use kube_sre_mcp.Prelude.{
  ℕ, String, ◌≡◌, refl, Bool, true, false, not, ◌==◌, ◌&&◌, List, eq_refl, arith, leb,
  if◌then◌else◌,
}
use kube_sre_mcp.Kube.Types.{Node, AccessReview}
use kube_sre_mcp.Action.Store.{ok, Pending, Store}
use kube_sre_mcp.Action.Cluster.{History, ClusterClient, Env, World, finish, pure, return_early}
use kube_sre_mcp.Action.Guards.{count_schedulable}
use kube_sre_mcp.Action.Engine.{success, Engine, cluster_for}
use kube_sre_mcp.Action.Rules.Success.{
  Gives, Gives-pure, Gives-send, Gives-if_false, Gives-or_return, Gives-bind, Gives-mutate,
  Succeeds, Succeeds-bind, Succeeds-if_false, Succeeds-pure, Succeeds-confirm, IsTaken,
}
use kube_sre_mcp.Action.Rules.Steady.{Allows, Changes, Gives-allowed}
use kube_sre_mcp.Action.Cordon.{
  is_schedulable, last_node, require_other_node, cordon_execute, cordon_want, cordon_plan,
  cordon_node,
}

-- cordoning this node would leave no schedulable one
abbrev pub is_last : Bool → Node → List Node → Bool
is_last cordon target nodes = cordon && (is_schedulable target && leb (count_schedulable nodes) 1)

module _ (env : Env) (cl : ClusterClient) (name id : String) (cordon : Bool) (target : Node)
    (nodes : List Node) (stored : Pending)
    (found : (h : History) → cl.api.get_node h name ≡ ok target)
    (listed : (h : History) → cl.api.list_nodes h ≡ ok nodes)
    (others : is_last cordon target nodes ≡ false) (changes : Changes cl)
    (same : stored.uid ≡ target.uid) where
  other_node-Gives :
      (c : Bool) (authorized : Bool)
      → is_last c target nodes ≡ false
      → Gives (λ _. Unit {0}) (if c then require_other_node cl authorized target else pure tt)
  unfolding require_other_node
  other_node-Gives false authorized h = Gives-pure tt tt
  other_node-Gives true authorized h =
      Gives-bind _ _ (Gives-send {P = λ x. x ≡ ok nodes} cl _ _ listed) λ reply e.
        Gives-bind _ _ (Gives-or_return _ reply nodes e) λ items same_items. rw same_items (
          Gives-if_false (is_schedulable target && leb (count_schedulable nodes) 1)
            (return_early (last_node (count_schedulable nodes))) _ h (Gives-pure tt tt))

  cordon_execute-Succeeds : Succeeds (λ _ _. Unit {0}) (cordon_execute cl name cordon stored)
  unfolding cordon_execute
  cordon_execute-Succeeds =
      Succeeds-bind _ _ _ (Gives-send {P = λ x. x ≡ ok target} cl _ _ found) λ reply e.
        Succeeds-bind _ _ _ (Gives-or_return _ reply target e) λ live is. rw is (
          Succeeds-if_false _ (not (target.uid == stored.uid)) _ _
            (rw same (ground (arith, eq_refl target.uid)))
            (Succeeds-bind _ _ _ (other_node-Gives cordon true others) λ v s.
              Succeeds-bind _ _ _ (Gives-mutate cl _ (λ h. changes h _))
                λ u t. Succeeds-pure _ _ refl))

  -- Where actions are enabled, the API allows the change, always answers with this node and these
  -- nodes and makes every change, the node is not the last schedulable Ready one if it is to be
  -- cordoned, and the token is taken for this change of this node, Cordon reports success.
  pub cordon_node-Succeeds :
      (e : Engine) (kube_ctx : String) (granted : AccessReview) (w : World)
      → e.cfg.actions_enabled ≡ true
      → cluster_for e kube_ctx ≡ ok cl
      → Allows cl granted
      → id == "" ≡ false
      → IsTaken env id (cordon_want cl name cordon target) stored w.store w.readings
      → (finish (cordon_node env e name id kube_ctx cordon w).0).status ≡ success
  unfolding cordon_node
  cordon_node-Succeeds e kube_ctx granted w on chosen allowed n taken =
      Succeeds-if_false C (not e.cfg.actions_enabled) _ _ (rw on refl)
        (Succeeds-bind C _ _ (Gives-or_return _ (cluster_for e kube_ctx) cl chosen) λ c is. rw is (
          Succeeds-bind C _ _ (Gives-allowed cl _ _ _ _ _ granted allowed) λ u t.
            Succeeds-bind C _ _ (Gives-send {P = λ x. x ≡ ok target} cl _ _ found) λ reply r.
              Succeeds-bind C _ _ (Gives-or_return _ reply target r) λ q same_node. rw same_node (
                Succeeds-bind C _ _ (other_node-Gives cordon false others) λ v s.
                  Succeeds-confirm env id (cordon_want cl name cordon target) stored
                    (cordon_plan cl cordon target) _ n cordon_execute-Succeeds)))
        w taken
    where
      C : Store → ℕ → Type 0
      C = IsTaken env id (cordon_want cl name cordon target) stored
