-- ===== src/Graph/PodLinks.antt =====
-- internal/graph/dependencies.go, fromPodSpec: the edges from an owner to what its pods use.
use kube_sre_mcp.Prelude.{String, Option, none, some, List, [], ◌∷◌, ◌++◌, ◌==◌, if◌then◌else◌}
use kube_sre_mcp.Model.{ResourceRef}
use kube_sre_mcp.Kube.Spec.{EnvVar, EnvFrom, Container, ProjectedSource, Volume, PodSpec}
use kube_sre_mcp.Graph.Core.{
  RelType, scheduled_on, uses_config_map, uses_secret, uses_pvc, uses_service_account,
  uses_image_pull_secret, Graph, add_edge,
}

-- an object that the graph only names: Kind, with its API version, namespace and name
abbrev pub named : String → String → String → String → ResourceRef
named api_version kind ns name = record {
  api_version = api_version;
  kind = kind;
  namespace = ns;
  name = name;
  uid = "";
}

-- the edges that leave the owner of a pod specification, in order
abbrev Links : Type 0
Links = List (RelType × ResourceRef)

abbrev link_if : RelType → (String → ResourceRef) → Option String → Links
link_if t to none = []
link_if t to (some name) = (t, to name) ∷ []

module _ (ns : String) where
  abbrev config_map : String → ResourceRef
  config_map name = named "v1" "ConfigMap" ns name

  abbrev secret : String → ResourceRef
  secret name = named "v1" "Secret" ns name

  abbrev service_account : String → ResourceRef
  service_account name = named "v1" "ServiceAccount" ns name

  abbrev claim : String → ResourceRef
  claim name = named "v1" "PersistentVolumeClaim" ns name

  env_links : List EnvVar → Links
  env_links [] = []
  env_links (e ∷ es) =
      (elim e.config_map [ none ↦ [] | some k ↦ (uses_config_map, config_map k.name) ∷ [] ])
      ++ (elim e.secret [ none ↦ [] | some k ↦ (uses_secret, secret k.name) ∷ [] ])
      ++ env_links es

  env_from_links : List EnvFrom → Links
  env_from_links [] = []
  env_from_links (e ∷ es) =
      link_if uses_config_map config_map e.config_map
      ++ link_if uses_secret secret e.secret
      ++ env_from_links es

  -- the function `add` of fromPodSpec, on each container
  container_links : List Container → Links
  unfolding env_links env_from_links
  container_links [] = []
  container_links (c ∷ cs) = env_links c.env ++ env_from_links c.env_from ++ container_links cs

  -- the name is not empty
  abbrev nonempty : Option String → Option String
  nonempty none = none
  nonempty (some name) = if name == "" then none else some name

  projected_links : String → List ProjectedSource → Links
  projected_links account [] = []
  projected_links account (src ∷ srcs) =
      link_if uses_secret secret (nonempty src.secret)
      ++ link_if uses_config_map config_map (nonempty src.config_map)
      ++ (if src.service_account_token
          then (uses_service_account, service_account account) ∷ []
          else [])
      ++ projected_links account srcs

  volume_links : String → List Volume → Links
  unfolding projected_links
  volume_links account [] = []
  volume_links account (v ∷ vs) =
      link_if uses_config_map config_map v.config_map
      ++ link_if uses_secret secret v.secret
      ++ link_if uses_pvc claim v.claim
      ++ (elim v.projected [ none ↦ [] | some srcs ↦ projected_links account srcs ])
      ++ volume_links account vs

  pull_secret_links : List String → Links
  pull_secret_links [] = []
  pull_secret_links (s ∷ ss) = (uses_image_pull_secret, secret s) ∷ pull_secret_links ss

  -- the edges of fromPodSpec
  unfoldable pub pod_spec_links : PodSpec → Links
  unfolding container_links volume_links pull_secret_links
  pod_spec_links spec =
      (if spec.node_name == ""
        then []
        else (scheduled_on, named "v1" "Node" "" spec.node_name) ∷ [])
      ++ (if spec.service_account_name == ""
          then []
          else (uses_service_account, service_account spec.service_account_name) ∷ [])
      ++ pull_secret_links spec.image_pull_secrets
      ++ container_links spec.containers
      ++ container_links spec.init_containers
      ++ volume_links spec.service_account_name spec.volumes

unfoldable pub add_links : ResourceRef → List (RelType × ResourceRef) → Graph → Graph
add_links owner [] g = g
add_links owner ((t, to) ∷ links) g = add_links owner links (add_edge t owner to g)

-- fromPodSpec
unfoldable pub from_pod_spec : String → ResourceRef → PodSpec → Graph → Graph
unfolding pod_spec_links add_links
from_pod_spec ns owner spec g = add_links owner (pod_spec_links ns spec) g
