-- ===== src/Action/Cordon/Safety.antt =====
-- internal/action/engine.go: what Cordon changes, and when.
use kube_sre_mcp.Prelude.{
  String, ◌≡◌, ◌≤◌, refl, Bool, true, false, not, ◌&&◌, ◌⊎◌, Option, List, ◌==◌, leb, if◌then◌else◌,
  arith, eq_iff,
}
use kube_sre_mcp.Message.{Message}
use kube_sre_mcp.Kube.Types.{Node}
use kube_sre_mcp.Action.Store.{ok, Pending}
use kube_sre_mcp.Action.Store.Bind.{IsSameAction}
use kube_sre_mcp.Action.Store.Expiry.{IsValid}
use kube_sre_mcp.Action.Cluster.{
  get, list, Request, History, ClusterClient, Env, World, pure, finish,
}
use kube_sre_mcp.Action.Engine.{Engine, disabled_result, cluster_for}
use kube_sre_mcp.Action.Engine.Reads.{Allowed, Allowed-earlier, require_allowed-Reads}
use kube_sre_mcp.Action.Requests.{Since, now, Sent, Sent-later, Since-trans}
use kube_sre_mcp.Action.Rules.{
  Reads, Reads-pure, Reads-return_early, Reads-if, Reads-send, Reads-or_return, Reads-bind,
  Reads-weaken,
}
use kube_sre_mcp.Action.Rules.Changes.{
  Refused, Executes, Executes-return_early, Executes-if, Executes-bind, Executes-mutate,
  Executes-allowed,
}
use kube_sre_mcp.Action.Rules.Tokens.{
  Confirmed, Guarded, Guarded-return_early, Guarded-if, Guarded-bind, Guarded-confirm,
}
use kube_sre_mcp.Action.Guards.{count_schedulable}
use kube_sre_mcp.Action.Cordon.{
  is_schedulable, last_node, cordon_patch, require_other_node, cordon_execute, cordon_want,
  cordon_plan, cordon_node,
}

-- the API gave a list of nodes in which `n`, if it is schedulable, is not the only one, when asked
-- between `first` and `until`
pub record OtherNode (cl : ClusterClient) (n : Node) (first until : History) : Type 0 where
  pub before : History
  pub sent : Sent cl (list "nodes" "" "") first until before
  pub nodes : List Node
  pub listed : cl.api.list_nodes before ≡ ok nodes
  pub others : is_schedulable n ≡ true → 2 ≤ count_schedulable nodes

OtherNode-later :
    {cl : ClusterClient} {n : Node} {first last last' : History}
    → Since last last'
    → OtherNode cl n first last
    → OtherNode cl n first last'
OtherNode-later s o = record {
  before = o.before;
  sent = Sent-later s o.sent;
  nodes = o.nodes;
  listed = o.listed;
  others = o.others;
}

require_other_node-Reads :
    (cl : ClusterClient) (authorized : Bool) (n : Node) (base : History)
    → Reads base (λ h _. OtherNode cl n base h) (require_other_node cl authorized n)
unfolding require_other_node
require_other_node-Reads cl authorized n base =
    Reads-bind _ _ (Reads-send cl _ _ refl) λ reply h1 _ replied.
      Reads-bind _ _ (Reads-or_return _ reply (λ e. λ p. cc)) λ nodes h2 s2 same.
        Reads-if (is_schedulable n && leb (count_schedulable nodes) 1) _ _
          (λ b. Reads-return_early (last_node (count_schedulable nodes)) (λ p. cc))
          (λ b. Reads-pure tt λ h s. record {
            before = replied.before;
            sent = Sent-later (Since-trans s2 s) replied.sent;
            nodes = nodes;
            listed = ground (arith, replied.is);
            others = λ s. ground arith;
          })

if_cordon-Reads :
    (cl : ClusterClient) (authorized cordon : Bool) (n : Node) (base : History)
    → Reads base
        (λ h _. cordon ≡ true → OtherNode cl n base h)
        (if cordon then require_other_node cl authorized n else pure tt)
if_cordon-Reads cl authorized cordon n base =
    Reads-if cordon _ _
      (λ _. Reads-weaken _ (require_other_node-Reads cl authorized n base) (λ _ _ o _. o))
      (λ b. Reads-pure tt (λ _ _. λ c. cc))

-- The one change that Cordon makes, behind the requests of `last`: of the node that was confirmed,
-- which was read behind those of `taken`, and the nodes behind that.
pub record CordonChange (cl : ClusterClient) (name : String) (cordon : Bool) (stored : Pending)
    (taken last : History) (request : Request) (answer : Option Message) : Type 0 where
  pub live : Node
  pub before : History
  pub middle : History
  pub sent : Sent cl (get "nodes" "" name) taken middle before
  pub found : cl.api.get_node before name ≡ ok live
  pub same_object : live.uid ≡ stored.uid
  pub other : cordon ≡ true → OtherNode cl live middle last
  pub is : request ≡ record { context = cl.context_name; call = cordon_patch name cordon }
  pub answered : cl.api.mutate last request.call ≡ answer

cordon_execute-Executes :
    (cl : ClusterClient) (name : String) (cordon : Bool) (stored : Pending) (taken : History)
    → Executes taken
        (CordonChange cl name cordon stored taken)
        (cordon_execute cl name cordon stored)
unfolding cordon_execute
cordon_execute-Executes cl name cordon stored taken =
    Executes-bind _ _ (Reads-send cl _ _ refl) λ reply h1 _ replied.
      Executes-bind _ _ (Reads-or_return _ reply (λ e. λ p. cc)) λ live h2 s2 same.
        Executes-if (not (live.uid == stored.uid)) _ _ (λ b. Executes-return_early _ (λ p. cc))
          (λ b. Executes-bind _ _ (if_cordon-Reads cl true cordon live h2) λ _ h3 _ other.
            Executes-mutate cl _ _ refl refl λ g s4. record {
              live = live;
              before = replied.before;
              middle = h2;
              sent = Sent-later s2 replied.sent;
              found = ground (arith, replied.is);
              same_object = ground (arith, eq_iff live.uid stored.uid);
              other = λ c. OtherNode-later s4 (other c);
              is = refl;
              answered = refl;
            })

-- What cordoning needs, from the requests of `start` on: the flag, the access, a first look at the
-- node, and behind it a confirmation, behind whose requests the change is made.
pub record CordonAllowed (e : Engine) (name kube_ctx : String) (cordon : Bool) (start : History)
    (stored : Pending) (last : History) (request : Request) (answer : Option Message) : Type 0 where
  pub enabled : e.cfg.actions_enabled ≡ true
  pub cl : ClusterClient
  pub cluster : cluster_for e kube_ctx ≡ ok cl
  pub asked : History
  pub access : Allowed cl "patch" "nodes" "" "" name start asked
  pub shown : Node
  pub looked : History
  pub taken : History
  pub look : Sent cl (get "nodes" "" name) asked taken looked
  pub shown_by : cl.api.get_node looked name ≡ ok shown
  pub confirmed : IsSameAction stored (cordon_want cl name cordon shown)
  pub change : CordonChange cl name cordon stored taken last request answer

cordon_node-Guarded :
    (env : Env) (e : Engine) (name confirm_id kube_ctx : String) (cordon : Bool) (start : History)
    → Guarded start env confirm_id
        (CordonAllowed e name kube_ctx cordon start)
        (cordon_node env e name confirm_id kube_ctx cordon)
unfolding cordon_node disabled_result
cordon_node-Guarded env e name confirm_id kube_ctx cordon start =
    Guarded-if (not e.cfg.actions_enabled) _ _ (λ _. Guarded-return_early _ (λ p. cc))
      λ on.
        Guarded-bind _ _ (Reads-or_return _ (cluster_for e kube_ctx) (λ x. λ p. cc))
          λ cl h1 s1 chosen.
            Guarded-bind _ _ (require_allowed-Reads cl _ _ _ _ _ h1) λ _ h2 _ access.
              Guarded-bind _ _ (Reads-send cl _ _ refl) λ reply h3 _ look.
                Guarded-bind _ _ (Reads-or_return _ reply (λ x. λ p. cc)) λ target h4 s4 same.
                  Guarded-bind _ _ (if_cordon-Reads cl false cordon target h4) λ _ h5 s5 _.
                    Guarded-confirm (cordon_want cl name cordon target)
                      (cordon_plan cl cordon target) _ (λ r. refl)
                      λ taken stored s6 sa.
                        Executes-allowed
                          (λ last request answer change. record {
                            enabled = ground arith;
                            cl = cl;
                            cluster = chosen;
                            asked = h2;
                            access = Allowed-earlier s1 access;
                            shown = target;
                            looked = look.before;
                            taken = taken;
                            look = Sent-later (Since-trans s4 (Since-trans s5 s6)) look.sent;
                            shown_by = ground (arith, look.is);
                            confirmed = sa;
                            change = change;
                          })
                          (cordon_execute-Executes cl name cordon stored taken)

-- Cordon and uncordon change nothing and report no success, or else ask for one change, as the last
-- request: actions are enabled, the API allowed this access when asked in this call, the node was
-- then looked at, the token stood in the store, unexpired, for the same action on the node looked
-- at, in this context, and is used up; after that look the node was read by one more request of
-- this call and then has the UID that was confirmed and, if it is to be cordoned, the nodes were
-- listed after that read, and there are two schedulable Ready ones if it is one itself; success is
-- reported exactly if the API answers without an error.
pub cordon-Confirmed :
    (env : Env) (e : Engine) (name confirm_id kube_ctx : String) (cordon : Bool) (w : World)
    → IsValid w.store
    → let o = cordon_node env e name confirm_id kube_ctx cordon w in
      Refused w o.1 (finish o.0)
      ⊎ Confirmed env confirm_id (CordonAllowed e name kube_ctx cordon w.history) w o.1 (finish o.0)
cordon-Confirmed env e name confirm_id kube_ctx cordon w =
    (cordon_node-Guarded env e name confirm_id kube_ctx cordon w.history).does w now
