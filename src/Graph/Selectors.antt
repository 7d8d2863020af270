-- ===== src/Graph/Selectors.antt =====
-- internal/graph/selectors.go. A map's list is the order in which the loop meets its entries.
use kube_sre_mcp.Prelude.{
  String, Bool, false, ◌&&◌, ◌||◌, not, Option, none, some, [], ◌∷◌, all, is_empty, ◌==◌,
  if◌then◌else◌,
}
use kube_sre_mcp.Prelude.Map.{StringMap, lookup}
use kube_sre_mcp.Kube.Types.{value_of, LabelSelector}
use Prim.Native.String.{◌++◌}

-- MatchLabels
unfoldable pub match_labels : StringMap String → StringMap String → Bool
unfolding lookup
match_labels selector labels =
    not (is_empty selector) && all (λ kv. value_of labels kv.0 == kv.1) selector

-- what LabelSelectorAsSelector parses: whether it is empty, and its Matches
pub record Selector : Type 0 where
  pub empty : Bool
  pub matches : StringMap String → Bool

-- MatchLabelSelector, over LabelSelectorAsSelector, which is `none` on an error
unfoldable pub match_label_selector :
    (LabelSelector → Option Selector) → Option LabelSelector → StringMap String → Bool
match_label_selector parse none labels = false
match_label_selector parse (some sel) labels = elim (parse sel) [
  | none ↦ false
  | some parsed ↦ if parsed.empty then false else parsed.matches labels
]

-- the loop of SelectorString behind its first entry
further_entries : StringMap String → String
further_entries [] = ""
further_entries ((k, v) ∷ m) = "," ++ (k ++ ("=" ++ (v ++ further_entries m)))

-- SelectorString
unfoldable pub selector_string : StringMap String → String
unfolding further_entries
selector_string [] = ""
selector_string ((k, v) ∷ m) = k ++ ("=" ++ (v ++ further_entries m))

-- PodMatchesService, on the labels of a pod
unfoldable pub pod_matches_service : StringMap String → StringMap String → Bool
unfolding match_labels
pod_matches_service labels selector = match_labels selector labels

-- matchOverlap of dependencies.go
unfoldable pub match_overlap : Option LabelSelector → Option LabelSelector → Bool
unfolding match_labels
match_overlap (some a) (some b) =
    match_labels a.match_labels b.match_labels || match_labels b.match_labels a.match_labels
match_overlap _ _ = false
