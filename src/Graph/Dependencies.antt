-- ===== src/Graph/Dependencies.antt =====
-- internal/graph/dependencies.go. The API client is a record of its List calls; the graph that a
-- builder has at its end, and the error with which it returns.
use kube_sre_mcp.Prelude.{String, ◌&&◌, Option, none, some, List, [], ◌∷◌, ◌==◌, if◌then◌else◌}
use kube_sre_mcp.Prelude.Int.{ℤ}
use kube_sre_mcp.Message.{Message}
use kube_sre_mcp.Model.{ResourceRef}
use kube_sre_mcp.Action.Store.{Fallible, ok, err}
use kube_sre_mcp.Kube.Types.{LabelSelector}
use kube_sre_mcp.Kube.Spec.{
  ObjectMeta, PodObject, WorkloadObject, ClaimObject, ScalerObject, BudgetObject, SliceObject,
}
use kube_sre_mcp.Graph.Core.{
  RelType, owns, owned_by, scaled_by_hpa, protected_by_pdb, Graph, Limits, add_edge, cap_reached_at,
}
use kube_sre_mcp.Graph.Owners.{ref_of, pod_ref, owned_by_uid}
use kube_sre_mcp.Graph.Selectors.{Selector, match_label_selector}
use kube_sre_mcp.Graph.PodLinks.{from_pod_spec}

-- What the List calls answer while a graph is built, in which time the cluster does not change, and
-- FormatLabelSelector and LabelSelectorAsSelector of the API's library.
pub record Api : Type 0 where
  pub replica_sets : String → Fallible Message (List WorkloadObject)
  pub pods : String → String → Fallible Message (List PodObject)
  pub claims : String → Fallible Message (List ClaimObject)
  pub jobs : String → Fallible Message (List ObjectMeta)
  pub slices : String → String → Fallible Message (List SliceObject)
  pub scalers : String → Fallible Message (List ScalerObject)
  pub budgets : String → Fallible Message (List BudgetObject)
  pub format_label_selector : LabelSelector → String
  pub label_selector_as_selector : LabelSelector → Option Selector

abbrev pub Outcome : Type 0
Outcome = Graph × Option Message

abbrev pub both_ways : RelType → RelType → ResourceRef → ResourceRef → Graph → Graph
both_ways there back a b g = add_edge back b a (add_edge there a b g)

-- what follows a step that may have failed
abbrev pub then_if_ok : Outcome → (Graph → Outcome) → Outcome
then_if_ok (g, some e) k = (g, some e)
then_if_ok (g, none) k = k g

-- one pod of the loop of addPodsByOwner
abbrev pub add_pod : String → ResourceRef → PodObject → Graph → Graph
unfolding pod_ref from_pod_spec
add_pod ns owner p g =
    from_pod_spec ns (pod_ref p.meta) p.spec (both_ways owns owned_by owner (pod_ref p.meta) g)

module _ (limits : Limits) where
  -- the loop of addPodsByOwner
  unfoldable pub add_owned_pods : String → String → ResourceRef → ℤ → List PodObject → Graph → Graph
  unfolding cap_reached_at owned_by_uid
  add_owned_pods ns uid owner depth [] g = g
  add_owned_pods ns uid owner depth (p ∷ ps) g =
      let skipped = add_owned_pods ns uid owner depth ps g in
      let rest = add_owned_pods ns uid owner depth ps (add_pod ns owner p g) in
      let cap = cap_reached_at limits depth g in
      if owned_by_uid p.meta uid then (if cap.0 then cap.1 else rest) else skipped

module _ (cs : Api) (limits : Limits) where
  -- addPodsByOwner
  unfoldable pub add_pods_by_owner :
      String → String → ResourceRef → Option LabelSelector → ℤ → Graph → Outcome
  unfolding add_owned_pods
  add_pods_by_owner ns uid owner sel depth g =
      elim (cs.pods ns (elim sel [ none ↦ "" | some s ↦ cs.format_label_selector s ])) [
        | err e ↦ (g, some e)
        | ok pods ↦ (add_owned_pods limits ns uid owner depth pods g, none)
      ]

-- the loop of linkHPA
unfoldable pub add_scalers : String → String → String → List ScalerObject → Graph → Graph
add_scalers ns kind name [] g = g
add_scalers ns kind name (h ∷ hs) g = add_scalers ns kind name hs (
    if h.target_kind == kind && h.target_name == name
    then add_edge scaled_by_hpa g.root
        (record (ref_of "autoscaling/v2" "HorizontalPodAutoscaler" h.meta) { namespace = ns }) g
    else g)

module _ (cs : Api) where
  -- linkHPA, whose error the callers drop
  unfoldable pub link_hpa : String → String → String → Graph → Graph
  unfolding add_scalers
  link_hpa ns kind name g = elim (cs.scalers ns) [
    | err e ↦ g
    | ok hpas ↦ add_scalers ns kind name hpas g
  ]

  -- the loop of linkPDB
  unfoldable pub add_budgets : String → LabelSelector → List BudgetObject → Graph → Graph
  unfolding match_label_selector
  add_budgets ns sel [] g = g
  add_budgets ns sel (p ∷ ps) g = add_budgets ns sel ps (
      if match_label_selector cs.label_selector_as_selector p.selector sel.match_labels
      then add_edge protected_by_pdb g.root
          (record (ref_of "policy/v1" "PodDisruptionBudget" p.meta) { namespace = ns }) g
      else g)

  -- linkPDB
  unfoldable pub link_pdb : String → Option LabelSelector → Graph → Outcome
  unfolding add_budgets
  link_pdb ns none g = (g, none)
  link_pdb ns (some sel) g = elim (cs.budgets ns) [
    | err e ↦ (g, some e)
    | ok pdbs ↦ (add_budgets ns sel pdbs g, none)
  ]
