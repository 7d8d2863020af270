-- ===== src/Action/DeletePod/Safety.antt =====
-- internal/action/engine.go: what DeletePod changes, and when.
use kube_sre_mcp.Prelude.{String, ◌≡◌, refl, true, false, not, ◌⊎◌, Option, ◌==◌, arith, eq_iff}
use kube_sre_mcp.Message.{Message}
use kube_sre_mcp.Kube.Types.{Pod}
use kube_sre_mcp.Action.Store.{ok, Pending}
use kube_sre_mcp.Action.Store.Bind.{IsSameAction}
use kube_sre_mcp.Action.Store.Expiry.{IsValid}
use kube_sre_mcp.Action.Cluster.{get, delete, Request, History, ClusterClient, Env, World, finish}
use kube_sre_mcp.Action.Engine.{Engine, disabled_result, cluster_for}
use kube_sre_mcp.Action.Engine.Reads.{Allowed, Allowed-earlier, require_allowed-Reads}
use kube_sre_mcp.Action.Requests.{now, Sent, Sent-later, Since-trans}
use kube_sre_mcp.Action.Rules.{Reads-send, Reads-or_return}
use kube_sre_mcp.Action.Rules.Changes.{
  Refused, Executes, Executes-return_early, Executes-if, Executes-bind, Executes-mutate,
  Executes-allowed,
}
use kube_sre_mcp.Action.Rules.Tokens.{
  Confirmed, Guarded, Guarded-return_early, Guarded-if, Guarded-bind, Guarded-confirm,
}
use kube_sre_mcp.Prelude.Int.{ℤ}
use kube_sre_mcp.Action.Guards.{pdb_matches_pod, is_control_plane_pod, is_mirror_pod}
use kube_sre_mcp.Action.Guards.Budgets.{Cleared, Cleared-later, require_no_pdb_block-Reads}
use kube_sre_mcp.Action.DeletePod.{
  delete_execute, delete_want, delete_plan, delete_confirm, delete_pod,
}

-- The one change that a deletion makes, behind the requests of `last`: of the pod that was confirmed,
-- which was read behind those of `taken`, and the budgets behind that.
pub record DeleteChange (env : Env) (cl : ClusterClient) (name ns : String) (grace : ℤ)
    (stored : Pending) (taken last : History) (request : Request) (answer : Option Message)
    : Type 0 where
  pub live : Pod
  pub before : History
  pub middle : History
  pub sent : Sent cl (get "pods" ns name) taken middle before
  pub found : cl.api.get_pod before ns name ≡ ok live
  pub same_object : live.uid ≡ stored.uid
  pub budgets : Cleared cl live.namespace middle last (pdb_matches_pod env live)
  pub is : request ≡ record { context = cl.context_name; call = delete "pods" ns name grace }
  pub answered : cl.api.mutate last request.call ≡ answer

delete_execute-Executes :
    (env : Env) (cl : ClusterClient) (name ns : String) (grace : ℤ) (stored : Pending)
    (taken : History)
    → Executes taken
        (DeleteChange env cl name ns grace stored taken)
        (delete_execute env cl name ns grace stored)
unfolding delete_execute
delete_execute-Executes env cl name ns grace stored taken =
    Executes-bind _ _ (Reads-send cl _ _ refl) λ reply h1 _ replied.
      Executes-bind _ _ (Reads-or_return _ reply (λ e. λ p. cc)) λ live h2 s2 same.
        Executes-if (not (live.uid == stored.uid)) _ _ (λ b. Executes-return_early _ (λ p. cc))
          (λ b. Executes-bind _ _ (require_no_pdb_block-Reads cl _ _ h2 _) λ _ h3 _ budgets.
            Executes-mutate cl _ _ refl refl λ g s4. record {
              live = live;
              before = replied.before;
              middle = h2;
              sent = Sent-later s2 replied.sent;
              found = ground (arith, replied.is);
              same_object = ground (arith, eq_iff live.uid stored.uid);
              budgets = Cleared-later s4 budgets;
              is = refl;
              answered = refl;
            })

-- What a deletion needs, from the requests of `start` on: the flag, the access, a first look at the
-- pod, which may be deleted, and behind it a confirmation, behind whose requests the change is made.
pub record DeleteAllowed (env : Env) (e : Engine) (name ns : String) (grace : ℤ) (kube_ctx : String)
    (start : History) (stored : Pending) (last : History) (request : Request)
    (answer : Option Message) : Type 0 where
  pub enabled : e.cfg.actions_enabled ≡ true
  pub cl : ClusterClient
  pub cluster : cluster_for e kube_ctx ≡ ok cl
  pub asked : History
  pub access : Allowed cl "delete" "pods" "" ns name start asked
  pub shown : Pod
  pub looked : History
  pub taken : History
  pub look : Sent cl (get "pods" ns name) asked taken looked
  pub shown_by : cl.api.get_pod looked ns name ≡ ok shown
  pub no_control_plane : is_control_plane_pod shown ≡ false
  pub no_mirror : is_mirror_pod shown ≡ false
  pub confirmed : IsSameAction stored (delete_want cl name ns grace shown)
  pub change : DeleteChange env cl name ns grace stored taken last request answer

delete_confirm-Guarded :
    (env : Env) (e : Engine) (cl : ClusterClient) (name ns : String) (grace : ℤ)
    (confirm_id kube_ctx : String) (p : Pod) (start asked looked base : History)
    → e.cfg.actions_enabled ≡ true
    → cluster_for e kube_ctx ≡ ok cl
    → Allowed cl "delete" "pods" "" ns name start asked
    → Sent cl (get "pods" ns name) asked base looked
    → cl.api.get_pod looked ns name ≡ ok p
    → is_control_plane_pod p ≡ false
    → is_mirror_pod p ≡ false
    → Guarded base env confirm_id
        (DeleteAllowed env e name ns grace kube_ctx start)
        (delete_confirm env cl name ns grace confirm_id p)
unfolding delete_confirm
delete_confirm-Guarded env e cl name ns grace confirm_id kube_ctx p start asked looked base on
      chosen access look shown_by c m =
    Guarded-bind _ _ (require_no_pdb_block-Reads cl _ _ base _) λ _ h1 s1 _.
      Guarded-confirm (delete_want cl name ns grace p) (delete_plan cl p) _ (λ r. refl)
        λ taken stored s2 same.
          Executes-allowed
            (λ last request answer change. record {
              enabled = on;
              cl = cl;
              cluster = chosen;
              asked = asked;
              access = access;
              shown = p;
              looked = looked;
              taken = taken;
              look = Sent-later (Since-trans s1 s2) look;
              shown_by = shown_by;
              no_control_plane = c;
              no_mirror = m;
              confirmed = same;
              change = change;
            })
            (delete_execute-Executes env cl name ns grace stored taken)

delete_pod-Guarded :
    (env : Env) (e : Engine) (name ns : String) (grace : ℤ) (confirm_id kube_ctx : String)
    (start : History)
    → Guarded start env confirm_id
        (DeleteAllowed env e name ns grace kube_ctx start)
        (delete_pod env e name ns grace confirm_id kube_ctx)
unfolding delete_pod disabled_result
delete_pod-Guarded env e name ns grace confirm_id kube_ctx start =
    Guarded-if (not e.cfg.actions_enabled) _ _ (λ _. Guarded-return_early _ (λ p. cc))
      λ on.
        Guarded-bind _ _ (Reads-or_return _ (cluster_for e kube_ctx) (λ x. λ p. cc))
          λ cl h1 s1 chosen.
            Guarded-bind _ _ (require_allowed-Reads cl _ _ _ _ _ h1) λ _ h2 _ access.
              Guarded-bind _ _ (Reads-send cl _ _ refl) λ reply h3 _ look.
                Guarded-bind _ _ (Reads-or_return _ reply (λ x. λ p. cc)) λ p h4 s4 same.
                  Guarded-if (is_control_plane_pod p) _ _ (λ _. Guarded-return_early _ (λ q. cc))
                    λ c.
                      Guarded-if (is_mirror_pod p) _ _ (λ _. Guarded-return_early _ (λ q. cc))
                        λ m.
                          delete_confirm-Guarded env e cl name ns grace confirm_id kube_ctx p start
                            h2 look.before h4 (ground arith) chosen (Allowed-earlier s1 access)
                            (Sent-later s4 look.sent) (ground (arith, look.is)) c m

-- DeletePod changes nothing and reports no success, or else it asks for one deletion, as its last
-- request: actions are enabled, the API allowed this access when asked in this call, the pod was
-- then looked at and is no control-plane and no mirror pod, the token stood in the store, unexpired,
-- for the deletion of the pod looked at with this grace period in this context, and is used up;
-- after that look the pod was read by one more request of this call and then has the UID that was
-- confirmed, and after that read the budgets were listed and no matching one blocks it; success is
-- reported exactly if the API answers without an error.
pub delete-Confirmed :
    (env : Env) (e : Engine) (name ns : String) (grace : ℤ) (confirm_id kube_ctx : String)
    (w : World)
    → IsValid w.store
    → let o = delete_pod env e name ns grace confirm_id kube_ctx w in
      Refused w o.1 (finish o.0)
      ⊎ Confirmed env confirm_id
          (DeleteAllowed env e name ns grace kube_ctx w.history)
          w
          o.1
          (finish o.0)
delete-Confirmed env e name ns grace confirm_id kube_ctx w =
    (delete_pod-Guarded env e name ns grace confirm_id kube_ctx w.history).does w now
