-- ===== src/Graph/Builders.antt =====
-- internal/graph/dependencies.go. The builders: the graph that each returns, and its error.
use Prim.Native.String
use kube_sre_mcp.Prelude.{
  String, Bool, true, false, Option, none, some, List, [], ◌∷◌, ◌++◌, ◌==◌, is_empty, ℕ, ◌+◌,
  if◌then◌else◌,
}
use kube_sre_mcp.Prelude.Int.{pos}
use kube_sre_mcp.Model.{ResourceRef}
use kube_sre_mcp.Action.Store.{ok, err}
use kube_sre_mcp.Kube.Spec.{
  ObjectMeta, PodObject, WorkloadObject, ClaimObject, ServiceObject, IngressObject, SliceObject,
}
use kube_sre_mcp.Graph.Core.{
  owns, owned_by, selects, uses_pvc, backed_by_pv, uses_storage_class, exposed_by_service,
  has_endpoint, routed_by_ingress, Graph, Limits, new, add_edge, cap_reached_at,
}
use kube_sre_mcp.Graph.Owners.{
  ref_of, pod_ref, deploy_ref, sts_ref, ds_ref, job_ref, cron_ref, owned_by_uid, sts_owns_pvc,
}
use kube_sre_mcp.Graph.Selectors.{selector_string}
use kube_sre_mcp.Graph.PodLinks.{named, from_pod_spec}
use kube_sre_mcp.Graph.Dependencies.{
  Api, Outcome, both_ways, then_if_ok, add_pods_by_owner, link_hpa, link_pdb,
}

-- one claim of the loop of StatefulSet
abbrev pub add_claim : ResourceRef → ClaimObject → Graph → Graph
add_claim owner pvc g =
    let ref = ref_of "v1" "PersistentVolumeClaim" pvc.meta in
    let used = add_edge uses_pvc owner ref g in
    let backed =
      if pvc.volume_name == ""
      then used
      else add_edge backed_by_pv ref (named "v1" "PersistentVolume" "" pvc.volume_name) used in
    elim pvc.storage_class_name [
      | none ↦ backed
      | some class ↦
          if class == ""
          then backed
          else add_edge uses_storage_class ref (named "storage.k8s.io/v1" "StorageClass" "" class)
              backed
    ]

unfoldable pub add_claims : WorkloadObject → List ClaimObject → Graph → Graph
unfolding sts_owns_pvc sts_ref
add_claims s [] g = g
add_claims s (pvc ∷ pvcs) g =
    add_claims s pvcs (if sts_owns_pvc s pvc then add_claim (sts_ref s.meta) pvc g else g)

-- Pod
unfoldable pub pod : PodObject → Outcome
unfolding new pod_ref from_pod_spec
pod p = (from_pod_spec p.meta.namespace (pod_ref p.meta) p.spec (new (pod_ref p.meta)), none)

-- the first loop of Service
unfoldable pub add_selected : ResourceRef → List PodObject → Graph → Graph
unfolding pod_ref from_pod_spec
add_selected src [] g = g
add_selected src (p ∷ ps) g = add_selected src ps (
    from_pod_spec p.meta.namespace (pod_ref p.meta) p.spec
      (both_ways selects exposed_by_service src (pod_ref p.meta) g))

-- the second loop of Service
unfoldable pub add_slices : ResourceRef → List SliceObject → Graph → Graph
add_slices src [] g = g
add_slices src (s ∷ ss) g =
    add_slices src ss
      (add_edge has_endpoint src (ref_of "discovery.k8s.io/v1" "EndpointSlice" s.meta) g)

abbrev pub service_ref : ObjectMeta → ResourceRef
service_ref svc = ref_of "v1" "Service" svc

-- the services that Ingress adds, in order
unfoldable pub ingress_backends : IngressObject → List (Option String)
ingress_backends ing = ing.default_backend ∷ rule_backends ing.rules
  where
    rule_backends : List (Option (List (Option String))) → List (Option String)
    rule_backends [] = []
    rule_backends (none ∷ rules) = rule_backends rules
    rule_backends (some paths ∷ rules) = paths ++ rule_backends rules

unfoldable pub add_routes : String → List (Option String) → Graph → Graph
add_routes ns [] g = g
add_routes ns (none ∷ routes) g = add_routes ns routes g
add_routes ns (some name ∷ routes) g =
    add_routes ns routes
      (if name == "" then g else add_edge routed_by_ingress (named "v1" "Service" ns name) g.root g)

abbrev pub ingress_ref : ObjectMeta → ResourceRef
ingress_ref ing = ref_of "networking.k8s.io/v1" "Ingress" ing

-- Ingress
unfoldable pub ingress : IngressObject → Outcome
unfolding new ingress_backends add_routes
ingress ing =
    (add_routes ing.meta.namespace (ingress_backends ing) (new (ingress_ref ing.meta)), none)

module _ (cs : Api) where
  -- Service
  unfoldable pub service : ServiceObject → Outcome
  unfolding new add_selected add_slices selector_string
  service svc =
      let src = service_ref svc.meta in
      let ns = svc.meta.namespace in
      if is_empty svc.selector
      then (new src, none)
      else elim (cs.pods ns (selector_string svc.selector)) [
        | err e ↦ (new src, some e)
        | ok pods ↦
            let g = add_selected src pods (new src) in
            elim (cs.slices ns (String.◌++◌ "kubernetes.io/service-name=" svc.meta.name)) [
              | err e ↦ (g, some e)
              | ok slices ↦ (add_slices src slices g, none)
            ]
      ]

module _ (cs : Api) (limits : Limits) where
  -- the loop of Deployment
  unfoldable pub add_replica_sets : ObjectMeta → List WorkloadObject → Graph → Outcome × Bool
  unfolding cap_reached_at owned_by_uid deploy_ref add_pods_by_owner
  add_replica_sets d [] g = ((g, none), false)
  add_replica_sets d (rs ∷ rss) g =
      let ref = record (ref_of "apps/v1" "ReplicaSet" rs.meta) { namespace = d.namespace } in
      let skipped = add_replica_sets d rss g in
      let cap = cap_reached_at limits (pos 1) g in
      let added =
        add_pods_by_owner cs limits d.namespace rs.meta.uid ref rs.selector (pos 2)
          (both_ways owns owned_by (deploy_ref d) ref g) in
      let rest = add_replica_sets d rss added.0 in
      if owned_by_uid rs.meta d.uid
      then (if cap.0
          then ((cap.1, none), true)
          else elim added.1 [ some e ↦ ((added.0, some e), true) | none ↦ rest ])
      else skipped

  -- Deployment
  unfoldable pub deployment : WorkloadObject → Outcome
  unfolding add_replica_sets new deploy_ref from_pod_spec link_hpa link_pdb
  deployment d =
      let ns = d.meta.namespace in
      let g = new (deploy_ref d.meta) in
      elim (cs.replica_sets ns) [
        | err e ↦ (g, some e)
        | ok rss ↦
            let looped = add_replica_sets d.meta rss g in
            if looped.1
            then looped.0
            else link_pdb cs ns d.selector (
                link_hpa cs ns "Deployment" d.meta.name
                  (from_pod_spec ns (deploy_ref d.meta) d.template looped.0.0))
      ]

  -- StatefulSet
  unfoldable pub stateful_set : WorkloadObject → Outcome
  unfolding new sts_ref add_pods_by_owner from_pod_spec add_claims link_hpa
  stateful_set s =
      let ns = s.meta.namespace in
      then_if_ok
        (add_pods_by_owner cs limits ns s.meta.uid (sts_ref s.meta) s.selector (pos 1)
          (new (sts_ref s.meta)))
        (λ g.
          let used = from_pod_spec ns (sts_ref s.meta) s.template g in
          (
            link_hpa cs ns "StatefulSet" s.meta.name
                (elim (cs.claims ns) [ err e ↦ used | ok pvcs ↦ add_claims s pvcs used ]),
            none,
          ))

  -- DaemonSet
  unfoldable pub daemon_set : WorkloadObject → Outcome
  unfolding new ds_ref add_pods_by_owner from_pod_spec
  daemon_set d =
      let ns = d.meta.namespace in
      then_if_ok
        (add_pods_by_owner cs limits ns d.meta.uid (ds_ref d.meta) d.selector (pos 1)
          (new (ds_ref d.meta)))
        (λ g. (from_pod_spec ns (ds_ref d.meta) d.template g, none))

  -- Job
  unfoldable pub job : ObjectMeta → Outcome
  unfolding new job_ref add_pods_by_owner
  job j = add_pods_by_owner cs limits j.namespace j.uid (job_ref j) none (pos 1) (new (job_ref j))

  -- the loop of CronJob
  unfoldable pub add_jobs : ObjectMeta → List ObjectMeta → Graph → Outcome
  unfolding owned_by_uid job_ref cron_ref add_pods_by_owner
  add_jobs c [] g = (g, none)
  add_jobs c (j ∷ js) g =
      let skipped = add_jobs c js g in
      let added =
        add_pods_by_owner cs limits c.namespace j.uid (job_ref j) none (pos 2)
          (add_edge owns (cron_ref c) (job_ref j) g) in
      let rest = add_jobs c js added.0 in
      if owned_by_uid j c.uid
      then elim added.1 [ some e ↦ (added.0, some e) | none ↦ rest ]
      else skipped

  -- CronJob
  unfoldable pub cron_job : ObjectMeta → Outcome
  unfolding new cron_ref add_jobs
  cron_job c = elim (cs.jobs c.namespace) [
    | err e ↦ (new (cron_ref c), some e)
    | ok jobs ↦ add_jobs c jobs (new (cron_ref c))
  ]

-- EndpointReadyCount
unfoldable pub endpoint_ready_count : List SliceObject → ℕ × ℕ
endpoint_ready_count [] = (0, 0)
endpoint_ready_count (s ∷ ss) =
    let rest = endpoint_ready_count ss in
    let here = count s.endpoints in (here.0 + rest.0, here.1 + rest.1)
  where
    count : List (Option Bool) → ℕ × ℕ
    count [] = (0, 0)
    count (some true ∷ es) = let rest = count es in (1 + rest.0, 1 + rest.1)
    count (_ ∷ es) = let rest = count es in (1 + rest.0, rest.1)
