-- ===== src/Action/Guards/Budgets.antt =====
-- internal/action/engine.go: what the loop over the disruption budgets finds.
use kube_sre_mcp.Prelude.{
  String, ◌≡◌, ◌≢◌, ◌↔◌, refl, Bool, true, false, ◌&&◌, List, [], ◌∷◌, ◌++◌, arith, if◌then◌else◌,
  All,
}
use kube_sre_mcp.Prelude.Int.{pos, ℤ_eq, ℤ_eq_iff}
use kube_sre_mcp.Kube.Types.{PodDisruptionBudget}
use kube_sre_mcp.Action.Store.{ok}
use kube_sre_mcp.Action.Cluster.{list, History, ClusterClient}
use kube_sre_mcp.Action.Requests.{Since, Sent, Sent-later, Since-trans}
use kube_sre_mcp.Action.Guards.{pdb_block}
use kube_sre_mcp.Action.Engine.{require_no_pdb_block}
use kube_sre_mcp.Action.Rules.{
  Reads, Reads-pure, Reads-return_early, Reads-if, Reads-send, Reads-or_return, Reads-bind,
}

-- no budget of the list that matches refuses a disruption
abbrev pub IsUnblocked : (PodDisruptionBudget → Bool) → List PodDisruptionBudget → Type 0
IsUnblocked matches = All (λ p. matches p ≡ true → p.disruptions_allowed ≢ pos 0)

-- the loop is blocked exactly if it was before or some matching budget allows no disruption
pdb_block-IsUnblocked :
    (matches : PodDisruptionBudget → Bool) (blocked : Bool) (names : List String)
    (ps : List PodDisruptionBudget)
    → (pdb_block matches blocked names ps).0 ≡ false
    → (blocked ≡ false) × IsUnblocked matches ps
unfolding pdb_block
pdb_block-IsUnblocked matches blocked names [] h = (h, tt)
pdb_block-IsUnblocked matches blocked names (p ∷ ps) h =
    let (b, rest) =
      pdb_block-IsUnblocked matches
        (if matches p && ℤ_eq p.disruptions_allowed (pos 0) then true else blocked)
        (if matches p then names ++ p.name ∷ [] else names) ps h in
    (ground arith, (λ m e. ground (arith, ℤ_eq_iff p.disruptions_allowed (pos 0)), rest))

pdb_block_of_unblocked :
    (matches : PodDisruptionBudget → Bool) (names : List String) (ps : List PodDisruptionBudget)
    → IsUnblocked matches ps
    → (pdb_block matches false names ps).0 ≡ false
unfolding pdb_block
pdb_block_of_unblocked matches names [] h = refl
pdb_block_of_unblocked matches names (p ∷ ps) (n, h) = ground (
  arith,
  ℤ_eq_iff p.disruptions_allowed (pos 0),
  n,
  pdb_block_of_unblocked matches names ps h,
  pdb_block_of_unblocked matches (names ++ p.name ∷ []) ps h,
)

-- The loop over the budgets reports no block exactly if every matching budget allows a disruption.
pub pdb_block_iff :
    (matches : PodDisruptionBudget → Bool) (names : List String) (ps : List PodDisruptionBudget)
    → ((pdb_block matches false names ps).0 ≡ false) ↔ IsUnblocked matches ps
pdb_block_iff matches names ps = (
  λ h. (pdb_block-IsUnblocked matches false names ps h).1,
  pdb_block_of_unblocked matches names ps,
)

-- the API gave a list of budgets, none of which blocks, when asked between `first` and `last`
pub record Cleared (cl : ClusterClient) (ns : String) (first last : History)
    (matches : PodDisruptionBudget → Bool) : Type 0 where
  pub before : History
  pub sent : Sent cl (list "poddisruptionbudgets" ns "") first last before
  pub budgets : List PodDisruptionBudget
  pub listed : cl.api.list_pdbs before ns ≡ ok budgets
  pub unblocked : IsUnblocked matches budgets

pub Cleared-later :
    {cl : ClusterClient} {ns : String} {first last last' : History}
    {matches : PodDisruptionBudget → Bool}
    → Since last last'
    → Cleared cl ns first last matches
    → Cleared cl ns first last' matches
Cleared-later s c = record {
  before = c.before;
  sent = Sent-later s c.sent;
  budgets = c.budgets;
  listed = c.listed;
  unblocked = c.unblocked;
}

pub require_no_pdb_block-Reads :
    (cl : ClusterClient) (ns limited : String) (base : History)
    (matches : PodDisruptionBudget → Bool)
    → Reads base (λ h _. Cleared cl ns base h matches) (require_no_pdb_block cl ns limited matches)
unfolding require_no_pdb_block
require_no_pdb_block-Reads cl ns limited base matches =
    Reads-bind _ _ (Reads-send cl _ _ refl) λ reply h1 _ replied.
      Reads-bind _ _ (Reads-or_return _ reply (λ e. λ p. cc)) λ items h2 s2 same.
        Reads-if (pdb_block matches false [] items).0 _ _ (λ b. Reads-return_early _ (λ p. cc))
          (λ b. Reads-pure _ λ h s. record {
            before = replied.before;
            sent = Sent-later (Since-trans s2 s) replied.sent;
            budgets = items;
            listed = ground (arith, replied.is);
            unblocked = (pdb_block_iff matches [] items).0 b;
          })
