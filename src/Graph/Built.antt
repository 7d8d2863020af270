-- ===== src/Graph/Built.antt =====
-- internal/graph: the graphs that AddEdge and capReachedAt make of a new one, and the steps that make
-- them.
use kube_sre_mcp.Prelude.{
  String, Bool, true, false, Option, none, some, Option-cases, not, ◌&&◌, length, List, [], ◌∷◌,
  ◌==◌, inl, inr, Bool-cases, if◌then◌else◌,
}
use kube_sre_mcp.Prelude.Int.{ℤ, pos, ℤ_lt}
use kube_sre_mcp.Model.{ResourceRef}
use kube_sre_mcp.Kube.Spec.{
  PodSpec, PodObject, WorkloadObject, ClaimObject, ScalerObject, SliceObject,
}
use kube_sre_mcp.Graph.Core.{
  RelType, owns, owned_by, selects, uses_pvc, backed_by_pv, uses_storage_class, exposed_by_service,
  has_endpoint, routed_by_ingress, scaled_by_hpa, Graph, Limits, new, add_edge, truncate,
  cap_reached_at,
}
use kube_sre_mcp.Graph.Owners.{ref_of, pod_ref, sts_ref, owned_by_uid, sts_owns_pvc}
use kube_sre_mcp.Graph.PodLinks.{named, from_pod_spec, add_links, pod_spec_links}
use kube_sre_mcp.Graph.Dependencies.{both_ways, add_pod, add_owned_pods, add_scalers}
use kube_sre_mcp.Graph.Builders.{add_claim, add_claims, add_selected, add_slices, add_routes}

pub data Built (root : ResourceRef) : Graph → Type 0 where
  fresh : Built root (new root)
  linked :
      (t : RelType) (a b : ResourceRef) (g : Graph) → Built root g → Built root (add_edge t a b g)
  deep : (g : Graph) → Built root g → Built root (truncate "max_depth" g)
  wide : (g : Graph) → Built root g → Built root (truncate "max_nodes" g)

module _ (root : ResourceRef) where
  pub add_links-Built :
      (owner : ResourceRef) (links : List (RelType × ResourceRef)) (g : Graph)
      → Built root g
      → Built root (add_links owner links g)
  unfolding add_links
  add_links-Built owner [] g h = h
  add_links-Built owner ((t, to) ∷ links) g h =
      add_links-Built owner links (add_edge t owner to g) (linked t owner to g h)

  pub from_pod_spec-Built :
      (ns : String) (owner : ResourceRef) (spec : PodSpec) (g : Graph)
      → Built root g
      → Built root (from_pod_spec ns owner spec g)
  unfolding from_pod_spec
  from_pod_spec-Built ns owner spec g h = add_links-Built owner (pod_spec_links ns spec) g h

  pub cap_reached_at-Built :
      (limits : Limits) (depth : ℤ) (g : Graph)
      → Built root g
      → Built root (cap_reached_at limits depth g).1
  unfolding cap_reached_at
  cap_reached_at-Built limits depth g h =
      elim (Bool-cases (ℤ_lt (pos 0) limits.max_depth && ℤ_lt limits.max_depth depth)) [
        | inl e ↦ rw e (deep g h)
        | inr e ↦
            elim (Bool-cases (
              ℤ_lt (pos 0) limits.max_nodes
              && not (ℤ_lt (pos (length g.nodes)) limits.max_nodes))) [
                | inl f ↦ rw (e, f) (wide g h)
                | inr f ↦ rw (e, f) h
              ]
      ]

  pub both_ways-Built :
      (t u : RelType) (a b : ResourceRef) (g : Graph)
      → Built root g
      → Built root (both_ways t u a b g)
  both_ways-Built t u a b g h = linked u b a (add_edge t a b g) (linked t a b g h)

  -- an edge that is added where a test holds
  pub edge_if-Built :
      (c : Bool) (t : RelType) (a b : ResourceRef) (g : Graph)
      → Built root g
      → Built root (if c then add_edge t a b g else g)
  edge_if-Built true t a b g h = linked t a b g h
  edge_if-Built false t a b g h = h

  edge_unless-Built :
      (c : Bool) (t : RelType) (a b : ResourceRef) (g : Graph)
      → Built root g
      → Built root (if c then g else add_edge t a b g)
  edge_unless-Built true t a b g h = h
  edge_unless-Built false t a b g h = linked t a b g h

  add_pod-Built :
      (ns : String) (owner : ResourceRef) (p : PodObject) (g : Graph)
      → Built root g
      → Built root (add_pod ns owner p g)
  unfolding from_pod_spec pod_ref
  add_pod-Built ns owner p g h =
      add_links-Built (pod_ref p.meta) (pod_spec_links ns p.spec) _
        (both_ways-Built owns owned_by owner (pod_ref p.meta) g h)

  pub add_owned_pods-Built :
      (limits : Limits) (ns uid : String) (owner : ResourceRef) (depth : ℤ) (ps : List PodObject)
      (g : Graph)
      → Built root g
      → Built root (add_owned_pods limits ns uid owner depth ps g)
  unfolding add_owned_pods
  add_owned_pods-Built limits ns uid owner depth [] g h = h
  add_owned_pods-Built limits ns uid owner depth (p ∷ ps) g h =
      elim (Bool-cases (owned_by_uid p.meta uid)) [
        | inr e ↦ rw e (add_owned_pods-Built limits ns uid owner depth ps g h)
        | inl e ↦ elim (Bool-cases (cap_reached_at limits depth g).0) [
          | inl f ↦ rw (e, f) (cap_reached_at-Built limits depth g h)
          | inr f ↦
              rw (e, f)
                (add_owned_pods-Built limits ns uid owner depth ps (add_pod ns owner p g)
                  (add_pod-Built ns owner p g h))
        ]
      ]

  pub add_scalers-Built :
      (ns kind name : String) (hs : List ScalerObject) (g : Graph)
      → Built root g
      → Built root (add_scalers ns kind name hs g)
  unfolding add_scalers
  add_scalers-Built ns kind name [] g h = h
  add_scalers-Built ns kind name (s ∷ hs) g h = add_scalers-Built ns kind name hs _ (
      edge_if-Built (s.target_kind == kind && s.target_name == name) scaled_by_hpa g.root
        (record (ref_of "autoscaling/v2" "HorizontalPodAutoscaler" s.meta) { namespace = ns }) g h)

  add_claim-Built :
      (owner : ResourceRef) (pvc : ClaimObject) (g : Graph)
      → Built root g
      → Built root (add_claim owner pvc g)
  add_claim-Built owner pvc g h =
      let ref = ref_of "v1" "PersistentVolumeClaim" pvc.meta in
      let backed =
        edge_unless-Built (pvc.volume_name == "") backed_by_pv ref
          (named "v1" "PersistentVolume" "" pvc.volume_name) (add_edge uses_pvc owner ref g)
          (linked uses_pvc owner ref g h) in
      elim (Option-cases pvc.storage_class_name) [
        | inl e ↦ rw e backed
        | inr (class, e) ↦ rw e (
            edge_unless-Built (class == "") uses_storage_class ref
              (named "storage.k8s.io/v1" "StorageClass" "" class) _ backed)
      ]

  pub add_claims-Built :
      (s : WorkloadObject) (pvcs : List ClaimObject) (g : Graph)
      → Built root g
      → Built root (add_claims s pvcs g)
  unfolding add_claims
  add_claims-Built s [] g h = h
  add_claims-Built s (pvc ∷ pvcs) g h = elim (Bool-cases (sts_owns_pvc s pvc)) [
    | inl e ↦ rw e (add_claims-Built s pvcs _ (add_claim-Built (sts_ref s.meta) pvc g h))
    | inr e ↦ rw e (add_claims-Built s pvcs g h)
  ]

  pub add_selected-Built :
      (src : ResourceRef) (ps : List PodObject) (g : Graph)
      → Built root g
      → Built root (add_selected src ps g)
  unfolding add_selected
  add_selected-Built src [] g h = h
  add_selected-Built src (p ∷ ps) g h = add_selected-Built src ps _ (
      from_pod_spec-Built p.meta.namespace (pod_ref p.meta) p.spec _
        (both_ways-Built selects exposed_by_service src (pod_ref p.meta) g h))

  pub add_slices-Built :
      (src : ResourceRef) (ss : List SliceObject) (g : Graph)
      → Built root g
      → Built root (add_slices src ss g)
  unfolding add_slices
  add_slices-Built src [] g h = h
  add_slices-Built src (s ∷ ss) g h =
      add_slices-Built src ss _
        (linked has_endpoint src (ref_of "discovery.k8s.io/v1" "EndpointSlice" s.meta) g h)

  pub add_routes-Built :
      (ns : String) (routes : List (Option String)) (g : Graph)
      → Built root g
      → Built root (add_routes ns routes g)
  unfolding add_routes
  add_routes-Built ns [] g h = h
  add_routes-Built ns (none ∷ routes) g h = add_routes-Built ns routes g h
  add_routes-Built ns (some name ∷ routes) g h =
      add_routes-Built ns routes _
        (edge_unless-Built (name == "") routed_by_ingress (named "v1" "Service" ns name) g.root g h)
