-- ===== src/Action/Restart/Safety.antt =====
-- internal/action/engine.go: what RestartDeployment changes, and when.
use kube_sre_mcp.Prelude.{
  ℕ, String, ◌≡◌, refl, Bool, true, not, ◌&&◌, ◌⊎◌, Option, none, some, List, ◌==◌, arith, eq_iff,
}
use kube_sre_mcp.Recommendation.{restart_useful}
use kube_sre_mcp.Message.{Message}
use kube_sre_mcp.Kube.Types.{LabelSelector, Deployment}
use kube_sre_mcp.Action.Store.{ok, Pending}
use kube_sre_mcp.Action.Store.Bind.{IsSameAction}
use kube_sre_mcp.Action.Store.Expiry.{IsValid}
use kube_sre_mcp.Action.Cluster.{
  get, Request, History, ClusterClient, Env, World, return_early, finish,
}
use kube_sre_mcp.Action.Guards.{pdb_matches_workload}
use kube_sre_mcp.Action.Guards.Budgets.{Cleared, Cleared-later, require_no_pdb_block-Reads}
use kube_sre_mcp.Action.Engine.{Engine, BlastEntry, disabled_result, cluster_for}
use kube_sre_mcp.Action.Engine.Reads.{Allowed, Allowed-earlier, require_allowed-Reads}
use kube_sre_mcp.Action.Requests.{Since, now, Sent, Sent-later, Since-trans}
use kube_sre_mcp.Action.Rules.{
  Reads, Reads-pure, Reads-if, Reads-send, Reads-or_return, Reads-time_now, Reads-bind,
  Reads-weaken,
}
use kube_sre_mcp.Action.Rules.Changes.{
  Refused, Executes, Executes-return_early, Executes-if, Executes-bind, Executes-mutate,
  Executes-allowed,
}
use kube_sre_mcp.Action.Rules.Tokens.{
  Confirmed, Guarded, Guarded-return_early, Guarded-if, Guarded-bind, Guarded-confirm,
}
use kube_sre_mcp.Action.Restart.{
  infer_restart_category, require_no_workload_pdb, restart_patch, restart_execute, restart_want,
  restart_blast, restart_plan, restart_confirm, not_recommended, restart_deployment,
}

-- the budgets that match the Deployment's selector, where it has one, were found not to block when
-- asked between `first` and `last`
pub data WorkloadCleared (env : Env) (cl : ClusterClient) (ns : String) (first last : History)
    : Option LabelSelector → Type 0 where
  no_selector : WorkloadCleared env cl ns first last none
  cleared :
      {sel : LabelSelector}
      → Cleared cl ns first last (λ p. pdb_matches_workload env p (some sel))
      → WorkloadCleared env cl ns first last (some sel)

-- The one change that a restart makes, behind the requests of `last`: of the object that was
-- confirmed, which was read behind those of `taken`, and the budgets behind that.
pub record RestartChange (env : Env) (cl : ClusterClient) (name ns : String) (stored : Pending)
    (taken last : History) (request : Request) (answer : Option Message) : Type 0 where
  pub live : Deployment
  pub before : History
  pub middle : History
  pub sent : Sent cl (get "deployments" ns name) taken middle before
  pub found : cl.api.get_deployment before ns name ≡ ok live
  pub same_object : live.uid ≡ stored.uid
  pub budgets : WorkloadCleared env cl ns middle last live.selector
  pub at : ℕ
  pub is : request ≡ record { context = cl.context_name; call = restart_patch ns name at }
  pub answered : cl.api.mutate last request.call ≡ answer

WorkloadCleared-later :
    {env : Env} {cl : ClusterClient} {ns : String} {first last last' : History}
    {sel : Option LabelSelector}
    → Since last last'
    → WorkloadCleared env cl ns first last sel
    → WorkloadCleared env cl ns first last' sel
WorkloadCleared-later s no_selector = no_selector
WorkloadCleared-later s (cleared c) = cleared (Cleared-later s c)

workload_pdb-Reads :
    (env : Env) (cl : ClusterClient) (limited ns : String) (base : History)
    (sel : Option LabelSelector)
    → Reads base
        (λ h _. WorkloadCleared env cl ns base h sel)
        (require_no_workload_pdb env cl limited ns sel)
unfolding require_no_workload_pdb
workload_pdb-Reads env cl limited ns base none = Reads-pure _ λ _ _. no_selector
workload_pdb-Reads env cl limited ns base (some sel) =
    Reads-weaken _ (require_no_pdb_block-Reads cl ns limited base _) (λ _ _ c. cleared c)

restart_execute-Executes :
    (env : Env) (cl : ClusterClient) (name ns : String) (blast : List BlastEntry) (stored : Pending)
    (taken : History)
    → Executes taken
        (RestartChange env cl name ns stored taken)
        (restart_execute env cl name ns blast stored)
unfolding restart_execute
restart_execute-Executes env cl name ns blast stored taken =
    Executes-bind _ _ (Reads-send cl _ _ refl) λ reply h1 _ replied.
      Executes-bind _ _ (Reads-or_return _ reply (λ e. λ p. cc)) λ live h2 s2 same.
        Executes-if (not (live.uid == stored.uid)) _ _ (λ b. Executes-return_early _ (λ p. cc))
          (λ b.
            Executes-bind _ _ (workload_pdb-Reads env cl _ ns h2 live.selector) λ _ h3 _ budgets.
              Executes-bind _ _ (Reads-time_now env) λ at h4 s4 _.
                Executes-mutate cl _ _ refl refl λ g s5. record {
                  live = live;
                  before = replied.before;
                  middle = h2;
                  sent = Sent-later s2 replied.sent;
                  found = ground (arith, replied.is);
                  same_object = ground (arith, eq_iff live.uid stored.uid);
                  budgets = WorkloadCleared-later (Since-trans s4 s5) budgets;
                  at = at;
                  is = refl;
                  answered = refl;
                })

-- What a restart needs, from the requests of `start` on: the flag, the access, a first look at the
-- Deployment, and behind it a confirmation of this restart, behind whose requests the change is made.
pub record RestartAllowed (env : Env) (e : Engine) (name ns kube_ctx : String) (start : History)
    (stored : Pending) (last : History) (request : Request) (answer : Option Message) : Type 0 where
  pub enabled : e.cfg.actions_enabled ≡ true
  pub cl : ClusterClient
  pub cluster : cluster_for e kube_ctx ≡ ok cl
  pub asked : History
  pub access : Allowed cl "patch" "deployments" "apps" ns name start asked
  pub shown : Deployment
  pub looked : History
  pub taken : History
  pub look : Sent cl (get "deployments" ns name) asked taken looked
  pub shown_by : cl.api.get_deployment looked ns name ≡ ok shown
  pub confirmed : IsSameAction stored (restart_want cl name ns shown)
  pub change : RestartChange env cl name ns stored taken last request answer

infer-Reads :
    (env : Env) (cl : ClusterClient) (base : History) (d : Deployment)
    → Reads base (λ _ _. Unit {0}) (infer_restart_category env cl d)
unfolding infer_restart_category
infer-Reads env cl base d =
    Reads-bind _ _ (Reads-send cl _ _ refl) λ reply h _ _. Reads-pure _ (λ _ _. tt)

restart_confirm-Guarded :
    (env : Env) (e : Engine) (cl : ClusterClient) (name ns confirm_id kube_ctx cat : String)
    (d : Deployment) (start asked looked base : History)
    → e.cfg.actions_enabled ≡ true
    → cluster_for e kube_ctx ≡ ok cl
    → Allowed cl "patch" "deployments" "apps" ns name start asked
    → Sent cl (get "deployments" ns name) asked base looked
    → cl.api.get_deployment looked ns name ≡ ok d
    → Guarded base env confirm_id
        (RestartAllowed env e name ns kube_ctx start)
        (restart_confirm env cl name ns confirm_id cat d)
unfolding restart_confirm
restart_confirm-Guarded env e cl name ns confirm_id kube_ctx cat d start asked looked base on chosen
      access look shown_by =
    Guarded-bind _ _ (workload_pdb-Reads env cl _ ns base d.selector) λ pdb_names h1 s1 _.
      Guarded-confirm (restart_want cl name ns d) (restart_plan cl cat pdb_names d) _ (λ r. refl)
        λ taken stored s2 same.
          Executes-allowed
            (λ last request answer change. record {
              enabled = on;
              cl = cl;
              cluster = chosen;
              asked = asked;
              access = access;
              shown = d;
              looked = looked;
              taken = taken;
              look = Sent-later (Since-trans s1 s2) look;
              shown_by = shown_by;
              confirmed = same;
              change = change;
            })
            (restart_execute-Executes env cl name ns (restart_blast cl d) stored taken)

restart_deployment-Guarded :
    (env : Env) (e : Engine) (name ns confirm_id rca_category kube_ctx : String) (force : Bool)
    (start : History)
    → Guarded start env confirm_id
        (RestartAllowed env e name ns kube_ctx start)
        (restart_deployment env e name ns confirm_id rca_category kube_ctx force)
unfolding restart_deployment disabled_result
restart_deployment-Guarded env e name ns confirm_id rca_category kube_ctx force start =
    Guarded-if (not e.cfg.actions_enabled) _ _ (λ _. Guarded-return_early _ (λ p. cc))
      λ on.
        Guarded-bind _ _ (Reads-or_return _ (cluster_for e kube_ctx) (λ x. λ p. cc))
          λ cl h1 s1 chosen.
            Guarded-bind _ _ (require_allowed-Reads cl _ _ _ _ _ h1) λ _ h2 _ access.
              Guarded-bind _ _ (Reads-send cl _ _ refl) λ reply h3 _ look.
                Guarded-bind _ _ (Reads-or_return _ reply (λ x. λ p. cc)) λ d h4 s4 same.
                  Guarded-bind _ _
                    (Reads-if (rca_category == "") _ _ (λ _. infer-Reads env cl h4 d)
                      (λ _. Reads-pure _ (λ _ _. tt)))
                    λ cat h5 s5 _.
                      Guarded-if (not (cat == "") && not (restart_useful cat) && not force)
                        (return_early (not_recommended cat))
                        (restart_confirm env cl name ns confirm_id cat d)
                        (λ _. Guarded-return_early (not_recommended cat) (λ p. cc))
                        (λ _.
                          restart_confirm-Guarded env e cl name ns confirm_id kube_ctx cat d start
                            h2 look.before h5 (ground arith) chosen (Allowed-earlier s1 access)
                            (Sent-later (Since-trans s4 s5) look.sent) (ground (arith, look.is)))

-- A restart changes nothing and reports no success, or else it asks for one change, as its last
-- request: actions are enabled, the API allowed this access when asked in this call, the Deployment
-- was then looked at, the token stood in the store, unexpired, for a restart of the Deployment
-- looked at, in this context, and is used up; after that look the Deployment was read by one more
-- request of this call and then has the UID that was confirmed, after that read the budgets were
-- listed, if the Deployment read has a selector, and no matching one blocks, and the change is its
-- restart patch; success is reported exactly if the API answers without an error.
pub restart-Confirmed :
    (env : Env) (e : Engine) (name ns confirm_id rca_category kube_ctx : String) (force : Bool)
    (w : World)
    → IsValid w.store
    → let o = restart_deployment env e name ns confirm_id rca_category kube_ctx force w in
      Refused w o.1 (finish o.0)
      ⊎ Confirmed env confirm_id
          (RestartAllowed env e name ns kube_ctx w.history)
          w
          o.1
          (finish o.0)
restart-Confirmed env e name ns confirm_id rca_category kube_ctx force w =
    (restart_deployment-Guarded env e name ns confirm_id rca_category kube_ctx force w.history).does
      w now
