-- ===== src/Graph/BuiltLoops.antt =====
-- internal/graph/dependencies.go: the steps and loops that ask the API, as steps of a graph.
use kube_sre_mcp.Prelude.{
  String, Option, none, some, Option-cases, List, [], ◌∷◌, inl, inr, Bool-cases,
}
use kube_sre_mcp.Prelude.Int.{ℤ, pos}
use kube_sre_mcp.Model.{ResourceRef}
use kube_sre_mcp.Action.Store.{Fallible-cases}
use kube_sre_mcp.Kube.Types.{LabelSelector}
use kube_sre_mcp.Kube.Spec.{ObjectMeta, WorkloadObject, BudgetObject}
use kube_sre_mcp.Graph.Core.{
  owns, owned_by, protected_by_pdb, Graph, Limits, add_edge, cap_reached_at,
}
use kube_sre_mcp.Graph.Owners.{ref_of, deploy_ref, job_ref, cron_ref, owned_by_uid}
use kube_sre_mcp.Graph.Selectors.{match_label_selector}
use kube_sre_mcp.Graph.Dependencies.{
  Api, both_ways, add_pods_by_owner, link_hpa, add_budgets, link_pdb,
}
use kube_sre_mcp.Graph.Builders.{add_replica_sets, add_jobs}
use kube_sre_mcp.Graph.Built.{
  Built, linked, cap_reached_at-Built, both_ways-Built, edge_if-Built, add_owned_pods-Built,
  add_scalers-Built,
}

module _ (root : ResourceRef) (cs : Api) where
  pub link_hpa-Built :
      (ns kind name : String) (g : Graph) → Built root g → Built root (link_hpa cs ns kind name g)
  unfolding link_hpa
  link_hpa-Built ns kind name g h = elim (Fallible-cases (cs.scalers ns)) [
    | inl (e, r) ↦ rw (r, link_hpa) h
    | inr (hpas, r) ↦ rw (r, link_hpa) (add_scalers-Built root ns kind name hpas g h)
  ]

  add_budgets-Built :
      (ns : String) (sel : LabelSelector) (ps : List BudgetObject) (g : Graph)
      → Built root g
      → Built root (add_budgets cs ns sel ps g)
  unfolding add_budgets
  add_budgets-Built ns sel [] g h = h
  add_budgets-Built ns sel (p ∷ ps) g h = add_budgets-Built ns sel ps _ (
      edge_if-Built root
        (match_label_selector cs.label_selector_as_selector p.selector sel.match_labels)
        protected_by_pdb g.root
        (record (ref_of "policy/v1" "PodDisruptionBudget" p.meta) { namespace = ns }) g h)

  pub link_pdb-Built :
      (ns : String) (sel : Option LabelSelector) (g : Graph)
      → Built root g
      → Built root (link_pdb cs ns sel g).0
  unfolding link_pdb
  link_pdb-Built ns none g h = h
  link_pdb-Built ns (some sel) g h = elim (Fallible-cases (cs.budgets ns)) [
    | inl (e, r) ↦ rw (r, link_pdb) h
    | inr (pdbs, r) ↦ rw (r, link_pdb) (add_budgets-Built ns sel pdbs g h)
  ]

  pub add_pods_by_owner-Built :
      (limits : Limits) (ns uid : String) (owner : ResourceRef) (sel : Option LabelSelector)
      (depth : ℤ) (g : Graph)
      → Built root g
      → Built root (add_pods_by_owner cs limits ns uid owner sel depth g).0
  unfolding add_pods_by_owner
  add_pods_by_owner-Built limits ns uid owner sel depth g h =
      elim (Fallible-cases
        (cs.pods ns (elim sel [ none ↦ "" | some s ↦ cs.format_label_selector s ]))) [
          | inl (e, r) ↦ rw (r, add_pods_by_owner) h
          | inr (ps, r) ↦
              rw (r, add_pods_by_owner) (add_owned_pods-Built root limits ns uid owner depth ps g h)
        ]

  pub add_replica_sets-Built :
      (limits : Limits) (d : ObjectMeta) (rss : List WorkloadObject) (g : Graph)
      → Built root g
      → Built root (add_replica_sets cs limits d rss g).0.0
  unfolding add_replica_sets
  add_replica_sets-Built limits d [] g h = h
  add_replica_sets-Built limits d (rs ∷ rss) g h =
      let ref = record (ref_of "apps/v1" "ReplicaSet" rs.meta) { namespace = d.namespace } in
      let linked_set = both_ways owns owned_by (deploy_ref d) ref g in
      let added =
        add_pods_by_owner cs limits d.namespace rs.meta.uid ref rs.selector (pos 2) linked_set in
      let added-Built =
        add_pods_by_owner-Built limits d.namespace rs.meta.uid ref rs.selector (pos 2) linked_set
          (both_ways-Built root owns owned_by (deploy_ref d) ref g h) in
      elim (Bool-cases (owned_by_uid rs.meta d.uid)) [
        | inr e ↦ rw e (add_replica_sets-Built limits d rss g h)
        | inl e ↦ elim (Bool-cases (cap_reached_at limits (pos 1) g).0) [
          | inl f ↦ rw (e, f) (cap_reached_at-Built root limits (pos 1) g h)
          | inr f ↦ elim (Option-cases added.1) [
            | inr (m, r) ↦ rw (e, f, r) added-Built
            | inl r ↦ rw (e, f, r) (add_replica_sets-Built limits d rss added.0 added-Built)
          ]
        ]
      ]

  pub add_jobs-Built :
      (limits : Limits) (c : ObjectMeta) (js : List ObjectMeta) (g : Graph)
      → Built root g
      → Built root (add_jobs cs limits c js g).0
  unfolding add_jobs
  add_jobs-Built limits c [] g h = h
  add_jobs-Built limits c (j ∷ js) g h =
      let linked_job = add_edge owns (cron_ref c) (job_ref j) g in
      let added =
        add_pods_by_owner cs limits c.namespace j.uid (job_ref j) none (pos 2) linked_job in
      let added-Built =
        add_pods_by_owner-Built limits c.namespace j.uid (job_ref j) none (pos 2) linked_job
          (linked owns (cron_ref c) (job_ref j) g h) in
      elim (Bool-cases (owned_by_uid j c.uid)) [
        | inr e ↦ rw e (add_jobs-Built limits c js g h)
        | inl e ↦ elim (Option-cases added.1) [
          | inr (m, r) ↦ rw (e, r) added-Built
          | inl r ↦ rw (e, r) (add_jobs-Built limits c js added.0 added-Built)
        ]
      ]
