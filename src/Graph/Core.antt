-- ===== src/Graph/Core.antt =====
-- internal/graph/graph.go. The set `visited` is a list; the field `depth` is written and never read.
use kube_sre_mcp.Prelude.{
  String, Bool, true, false, ◌&&◌, not, List, [], ◌∷◌, ◌++◌, any, length, ◌==◌, if◌then◌else◌,
}
use kube_sre_mcp.Prelude.Int.{ℤ, pos, ℤ_lt}
use kube_sre_mcp.Model.{ResourceRef}

pub data RelType : Type 0 where
  owns owned_by selects scheduled_on uses_config_map uses_secret uses_pvc : RelType
  uses_service_account uses_image_pull_secret backed_by_pv uses_storage_class : RelType
  exposed_by_service has_endpoint routed_by_ingress scaled_by_hpa protected_by_pdb : RelType

pub record Edge : Type 0 where
  pub type : RelType
  pub from : ResourceRef
  pub to : ResourceRef

pub record Graph : Type 0 where
  pub root : ResourceRef
  pub nodes : List ResourceRef
  pub edges : List Edge
  pub truncated : Bool
  pub truncation_reason : String
  pub visited : List String

-- the test of AddNode on a node without a UID
abbrev pub same_identity : ResourceRef → ResourceRef → Bool
same_identity e n = e.kind == n.kind && e.name == n.name && e.namespace == n.namespace

-- AddNode returns false
unfoldable pub is_present : Graph → ResourceRef → Bool
is_present g n =
    if n.uid == "" then any (λ e. same_identity e n) g.nodes else any (λ u. u == n.uid) g.visited

-- AddNode; no caller reads what it returns
unfoldable pub add_node : ResourceRef → Graph → Graph
unfolding is_present
add_node n g = if is_present g n then g else record g {
  nodes = g.nodes ++ n ∷ [];
  visited = if n.uid == "" then g.visited else g.visited ++ n.uid ∷ [];
}

-- New
unfoldable pub new : ResourceRef → Graph
unfolding add_node
new root = add_node root record {
  root = root;
  nodes = [];
  edges = [];
  truncated = false;
  truncation_reason = "";
  visited = [];
}

-- AddEdge
unfoldable pub add_edge : RelType → ResourceRef → ResourceRef → Graph → Graph
unfolding add_node
add_edge t a b g =
    let h = add_node b (add_node a g) in
    record h { edges = h.edges ++ record { type = t; from = a; to = b } ∷ [] }

-- OfKind
unfoldable pub of_kind : String → Graph → List ResourceRef
of_kind kind g = nodes_of g.nodes
  where
    nodes_of : List ResourceRef → List ResourceRef
    nodes_of [] = []
    nodes_of (n ∷ ns) = let rest = nodes_of ns in if n.kind == kind then n ∷ rest else rest

pub record Limits : Type 0 where
  pub max_depth : ℤ
  pub max_nodes : ℤ

-- the two assignments of capReachedAt
unfoldable pub truncate : String → Graph → Graph
truncate reason g = record g {
  truncated = true;
  truncation_reason = if g.truncation_reason == "" then reason else g.truncation_reason;
}

-- capReachedAt, and the graph that it leaves
unfoldable pub cap_reached_at : Limits → ℤ → Graph → Bool × Graph
unfolding truncate
cap_reached_at lim depth g =
    if ℤ_lt (pos 0) lim.max_depth && ℤ_lt lim.max_depth depth
    then (true, truncate "max_depth" g)
    else if ℤ_lt (pos 0) lim.max_nodes && not (ℤ_lt (pos (length g.nodes)) lim.max_nodes)
    then (true, truncate "max_nodes" g)
    else (false, g)
