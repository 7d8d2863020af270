-- ===== src/Action/Rules/Steady.antt =====
-- The parts that the handlers share, on a cluster that lets them pass.
use kube_sre_mcp.Prelude.{ℕ, String, ◌≡◌, Bool, true, false, none, List, []}
use kube_sre_mcp.Kube.Types.{PodDisruptionBudget, AccessRequest, AccessReview}
use kube_sre_mcp.Action.Store.{ok}
use kube_sre_mcp.Action.Cluster.{Call, History, ClusterClient, Env, Step, continue, ◌>>=◌}
use kube_sre_mcp.Action.Guards.{pdb_block}
use kube_sre_mcp.Action.Guards.Budgets.{IsUnblocked, pdb_block_iff}
use kube_sre_mcp.Action.Engine.{Result, require_allowed, require_no_pdb_block, time_now}
use kube_sre_mcp.Action.Rules.Success.{
  Gives, Gives-pure, Gives-send, Gives-or_return, Gives-if_true, Gives-if_false, Gives-bind,
  Succeeds,
}

-- every access is allowed
abbrev pub Allows : ClusterClient → AccessReview → Type 0
Allows cl granted =
    (granted.allowed ≡ true)
    × ((h : History) (a : AccessRequest) → cl.api.review_access h a ≡ ok granted)

-- every list of the budgets of the namespace is this one
abbrev pub ListsBudgets : ClusterClient → String → List PodDisruptionBudget → Type 0
ListsBudgets cl ns budgets = (h : History) → cl.api.list_pdbs h ns ≡ ok budgets

-- every change is made
abbrev pub Changes : ClusterClient → Type 0
Changes cl = (h : History) (c : Call) → cl.api.mutate h c ≡ none

pub Gives-allowed :
    (cl : ClusterClient) (verb resource group namespace name : String) (granted : AccessReview)
    → Allows cl granted
    → Gives (λ _. Unit {0}) (require_allowed cl verb resource group namespace name)
unfolding require_allowed
Gives-allowed cl verb resource group namespace name granted (a, h) =
    Gives-bind _ _ (Gives-send {P = λ x. x ≡ ok granted} cl _ _ (λ g. h g _)) λ reply e.
      Gives-bind _ _ (Gives-or_return _ reply granted e)
        λ out same. Gives-if_true out.allowed _ _ (rw same a) (Gives-pure tt tt)

pub Gives-budgets :
    (cl : ClusterClient) (ns limited : String) (matches : PodDisruptionBudget → Bool)
    (budgets : List PodDisruptionBudget)
    → ListsBudgets cl ns budgets
    → IsUnblocked matches budgets
    → Gives (λ _. Unit {0}) (require_no_pdb_block cl ns limited matches)
unfolding require_no_pdb_block
Gives-budgets cl ns limited matches budgets h free =
    Gives-bind _ _ (Gives-send {P = λ x. x ≡ ok budgets} cl _ _ h) λ reply e.
      Gives-bind _ _ (Gives-or_return _ reply budgets e) λ items same.
        Gives-if_false (pdb_block matches false [] items).0 _ _
          (rw same ((pdb_block_iff matches [] budgets).1 free)) (Gives-pure _ tt)

pub Succeeds-time_now :
    (env : Env) (f : ℕ → Step Result Result)
    → ((at : ℕ) → Succeeds (λ _ _. Unit {0}) (f at))
    → Succeeds (λ _ _. Unit {0}) (time_now env >>= f)
unfolding time_now ◌>>=◌ continue
Succeeds-time_now env f k w c = k (env.now w.readings) _ tt
