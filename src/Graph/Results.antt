-- ===== src/Graph/Results.antt =====
-- internal/graph/dependencies.go: the builders, each on the object that it is for.
use Prim.Native.String
use kube_sre_mcp.Prelude.{List, none, some, Bool-cases, inl, inr, is_empty}
use kube_sre_mcp.Prelude.Int.{pos}
use kube_sre_mcp.Message.{Message}
use kube_sre_mcp.Model.{ResourceRef}
use kube_sre_mcp.Action.Store.{Fallible, ok, err, Fallible-cases}
use kube_sre_mcp.Kube.Spec.{
  ObjectMeta, ClaimObject, PodObject, WorkloadObject, ServiceObject, IngressObject,
}
use kube_sre_mcp.Graph.Core.{Graph, Limits, new}
use kube_sre_mcp.Graph.Owners.{pod_ref, deploy_ref, sts_ref, ds_ref, job_ref, cron_ref}
use kube_sre_mcp.Graph.Dependencies.{Api, Outcome, then_if_ok}
use kube_sre_mcp.Graph.Selectors.{selector_string}
use kube_sre_mcp.Graph.Builders.{
  deployment, stateful_set, daemon_set, job, cron_job, pod, service, service_ref, ingress,
  ingress_ref, ingress_backends, add_replica_sets, add_claims,
}
use kube_sre_mcp.Graph.Built.{
  Built, fresh, from_pod_spec-Built, add_claims-Built, add_selected-Built, add_slices-Built,
  add_routes-Built,
}
use kube_sre_mcp.Graph.BuiltLoops.{
  add_pods_by_owner-Built, add_replica_sets-Built, add_jobs-Built, link_hpa-Built, link_pdb-Built,
}
use kube_sre_mcp.Graph.WellFormed.{IsWellFormed, Built-IsWellFormed}

-- the object that a graph is built for
pub data Subject : Type 0 where
  a_deployment a_stateful_set a_daemon_set : WorkloadObject → Subject
  a_job a_cron_job : ObjectMeta → Subject
  a_pod : PodObject → Subject
  a_service : ServiceObject → Subject
  an_ingress : IngressObject → Subject

abbrev pub root_of : Subject → ResourceRef
unfolding deploy_ref sts_ref ds_ref job_ref cron_ref pod_ref
root_of (a_deployment d) = deploy_ref d.meta
root_of (a_stateful_set s) = sts_ref s.meta
root_of (a_daemon_set d) = ds_ref d.meta
root_of (a_job j) = job_ref j
root_of (a_cron_job c) = cron_ref c
root_of (a_pod p) = pod_ref p.meta
root_of (a_service s) = service_ref s.meta
root_of (an_ingress i) = ingress_ref i.meta

abbrev pub build_graph : Api → Limits → Subject → Outcome
unfolding deployment stateful_set daemon_set job cron_job pod service ingress
build_graph cs limits (a_deployment d) = deployment cs limits d
build_graph cs limits (a_stateful_set s) = stateful_set cs limits s
build_graph cs limits (a_daemon_set d) = daemon_set cs limits d
build_graph cs limits (a_job j) = job cs limits j
build_graph cs limits (a_cron_job c) = cron_job cs limits c
build_graph cs limits (a_pod p) = pod p
build_graph cs limits (a_service s) = service cs s
build_graph cs limits (an_ingress i) = ingress i

module _ (root : ResourceRef) where
  then_if_ok-Built :
      (o : Outcome) (k : Graph → Outcome)
      → Built root o.0
      → ((g : Graph) → Built root g → Built root (k g).0)
      → Built root (then_if_ok o k).0
  then_if_ok-Built (g, some e) k h f = h
  then_if_ok-Built (g, none) k h f = f g h

  claims_if_ok-Built :
      (s : WorkloadObject) (r : Fallible Message (List ClaimObject)) (g : Graph)
      → Built root g
      → Built root (elim r as (λ _. Graph) [ err e ↦ g | ok pvcs ↦ add_claims s pvcs g ])
  claims_if_ok-Built s (err e) g h = h
  claims_if_ok-Built s (ok pvcs) g h = add_claims-Built root s pvcs g h

pod-Built : (p : PodObject) → Built (pod_ref p.meta) (pod p).0
unfolding pod
pod-Built p = from_pod_spec-Built (pod_ref p.meta) p.meta.namespace (pod_ref p.meta) p.spec _ fresh

ingress-Built : (i : IngressObject) → Built (ingress_ref i.meta) (ingress i).0
unfolding ingress
ingress-Built i =
    add_routes-Built (ingress_ref i.meta) i.meta.namespace (ingress_backends i) _ fresh

service-Built : (cs : Api) (svc : ServiceObject) → Built (service_ref svc.meta) (service cs svc).0
unfolding service
service-Built cs svc =
    let src = service_ref svc.meta in
    let ns = svc.meta.namespace in
    elim (Bool-cases (is_empty svc.selector)) [
      | inl e ↦ rw e fresh
      | inr e ↦ elim (Fallible-cases (cs.pods ns (selector_string svc.selector))) [
        | inl (m, r) ↦ rw (e, r, service) fresh
        | inr (ps, r) ↦
            let selected = add_selected-Built src src ps (new src) fresh in
            elim (Fallible-cases
              (cs.slices ns (String.◌++◌ "kubernetes.io/service-name=" svc.meta.name))) [
                | inl (m, q) ↦ rw (e, r, q, service) selected
                | inr (ss, q) ↦ rw (e, r, q, service) (add_slices-Built src src ss _ selected)
              ]
      ]
    ]

module _ (cs : Api) (limits : Limits) where
  deployment-Built : (d : WorkloadObject) → Built (deploy_ref d.meta) (deployment cs limits d).0
  unfolding deployment
  deployment-Built d =
      let root = deploy_ref d.meta in
      elim (Fallible-cases (cs.replica_sets d.meta.namespace)) [
        | inl (e, r) ↦ rw (r, deployment) fresh
        | inr (rss, r) ↦
            let looped = add_replica_sets cs limits d.meta rss (new root) in
            let looped-Built = add_replica_sets-Built root cs limits d.meta rss (new root) fresh in
            elim (Bool-cases looped.1) [
              | inl e ↦ rw (r, e, deployment) looped-Built
              | inr e ↦
                  rw (r, e, deployment)
                    (link_pdb-Built root cs d.meta.namespace d.selector _ (
                      link_hpa-Built root cs d.meta.namespace "Deployment" d.meta.name _
                        (from_pod_spec-Built root d.meta.namespace root d.template _ looped-Built)))
            ]
      ]

  stateful_set-Built : (s : WorkloadObject) → Built (sts_ref s.meta) (stateful_set cs limits s).0
  unfolding stateful_set
  stateful_set-Built s =
      let root = sts_ref s.meta in
      let ns = s.meta.namespace in
      then_if_ok-Built root _ _
        (add_pods_by_owner-Built root cs limits ns s.meta.uid root s.selector (pos 1) (new root)
          fresh)
        (λ g h. link_hpa-Built root cs ns "StatefulSet" s.meta.name _ (
          claims_if_ok-Built root s (cs.claims ns) _
            (from_pod_spec-Built root ns root s.template g h)))

  daemon_set-Built : (d : WorkloadObject) → Built (ds_ref d.meta) (daemon_set cs limits d).0
  unfolding daemon_set
  daemon_set-Built d =
      let root = ds_ref d.meta in
      let ns = d.meta.namespace in
      then_if_ok-Built root _ _
        (add_pods_by_owner-Built root cs limits ns d.meta.uid root d.selector (pos 1) (new root)
          fresh)
        (λ g h. from_pod_spec-Built root ns root d.template g h)

  job-Built : (j : ObjectMeta) → Built (job_ref j) (job cs limits j).0
  unfolding job
  job-Built j =
      let root = job_ref j in
      add_pods_by_owner-Built root cs limits j.namespace j.uid root none (pos 1) (new root) fresh

  cron_job-Built : (c : ObjectMeta) → Built (cron_ref c) (cron_job cs limits c).0
  unfolding cron_job
  cron_job-Built c = elim (Fallible-cases (cs.jobs c.namespace)) [
    | inl (e, r) ↦ rw (r, cron_job) fresh
    | inr (js, r) ↦
        rw (r, cron_job) (add_jobs-Built (cron_ref c) cs limits c js (new (cron_ref c)) fresh)
  ]

  -- A builder's graph is one that AddEdge and capReachedAt make of a new graph.
  build_graph-Built : (o : Subject) → Built (root_of o) (build_graph cs limits o).0
  unfolding deploy_ref sts_ref ds_ref job_ref cron_ref pod_ref deployment stateful_set daemon_set
      job cron_job pod service ingress
  build_graph-Built (a_deployment d) = deployment-Built d
  build_graph-Built (a_stateful_set s) = stateful_set-Built s
  build_graph-Built (a_daemon_set d) = daemon_set-Built d
  build_graph-Built (a_job j) = job-Built j
  build_graph-Built (a_cron_job c) = cron_job-Built c
  build_graph-Built (a_pod p) = pod-Built p
  build_graph-Built (a_service s) = service-Built cs s
  build_graph-Built (an_ingress i) = ingress-Built i

-- Whatever the API answers, and also beside an error, the graph that a builder returns is rooted in
-- its object, has no node twice by AddNode's test, records the UIDs of its nodes, has no edge that
-- leads to an object outside its nodes, and gives the reason max_depth or max_nodes exactly where it
-- is truncated.
pub build_graph-IsWellFormed :
    (cs : Api) (limits : Limits) (o : Subject)
    → IsWellFormed (root_of o) (build_graph cs limits o).0
build_graph-IsWellFormed cs limits o =
    Built-IsWellFormed (root_of o) _ (build_graph-Built cs limits o)
