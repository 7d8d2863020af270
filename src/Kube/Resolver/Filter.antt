-- ===== src/Kube/Resolver/Filter.antt =====
-- internal/kube/resolver.go: ResolveFilter, a definition for each of its branches and loops.
use kube_sre_mcp.Prelude.{
  String, Bool, true, false, ◌&&◌, not, Option, none, some, List, [], ◌∷◌, ◌++◌, ◌==◌,
  if◌then◌else◌,
}
use kube_sre_mcp.Message.{text, quoted, ◌<>◌}
use kube_sre_mcp.Model.{ResourceRef}
use kube_sre_mcp.Action.Store.{Fallible, ok, err}
use kube_sre_mcp.Kube.Kind.{normalize_kind}
use kube_sre_mcp.Kube.Errors.{GoError, is_forbidden, text_of}
use kube_sre_mcp.Kube.Resolver.{
  ResolveResult, Object, Resolver, context_namespace, get, list, has_text, unique, namespaces_of,
  ref_from, prefix_filter, no_match, one_match, many_matches, build_result, missing, denied,
}

abbrev pub denied_by : GoError → ResolveResult
unfolding text_of
denied_by e = no_match denied (text (text_of e))

-- prefixFilter and buildResult of a listing; `items` is nil beside an error
abbrev pub from_listing : String → String → Bool → Fallible GoError (List Object) → ResolveResult
unfolding build_result prefix_filter is_forbidden text_of
from_listing kind name prefix (err e) =
    if is_forbidden e
    then denied_by e
    else build_result kind name (prefix_filter kind [] name prefix)
from_listing kind name prefix (ok items) =
    build_result kind name (prefix_filter kind items name prefix)

-- the branch of a kind without a namespace
unfoldable pub resolve_cluster_scoped : Resolver → String → String → ResolveResult
unfolding get list ref_from build_result prefix_filter is_forbidden text_of
resolve_cluster_scoped r kind name = elim (get r kind name "") [
  | ok obj ↦ one_match (ref_from obj kind) "exact"
  | err e ↦
      if is_forbidden e then denied_by e else from_listing kind name r.prefix_match (list r kind "")
]

-- the branch of a namespace that is given
unfoldable pub resolve_in_namespace : Resolver → String → String → String → ResolveResult
unfolding get list ref_from build_result prefix_filter is_forbidden text_of
resolve_in_namespace r kind name namespace = elim (get r kind name namespace) [
  | ok obj ↦ one_match (ref_from obj kind) "exact"
  | err e ↦
      if is_forbidden e
      then denied_by e
      else if r.prefix_match
      then from_listing kind name true (list r kind namespace)
      else no_match missing (
          text "No "
          <> text kind
          <> text " named "
          <> quoted name
          <> text " in namespace "
          <> text namespace
          <> text ".")
]

-- the branch of all namespaces
unfoldable pub resolve_in_all : Resolver → String → String → ResolveResult
unfolding list build_result prefix_filter text_of
resolve_in_all r kind name = elim (list r kind "") [
  | err e ↦ denied_by e
  | ok items ↦ build_result kind name (prefix_filter kind items name r.prefix_match)
]

-- the loop over the namespaces of `priority`: the result with which it returns
unfoldable pub priority_loop : Resolver → String → String → List String → Option ResolveResult
unfolding get ref_from is_forbidden text_of
priority_loop r kind name [] = none
priority_loop r kind name (ns ∷ nss) =
    let rest = priority_loop r kind name nss in
    elim (get r kind name ns) [
      | ok obj ↦ some (one_match (ref_from obj kind) "exact")
      | err e ↦ if is_forbidden e then some (denied_by e) else rest
    ]

-- the loop over the other namespaces: `exact`, or the error with which it returns
unfoldable pub exact_loop :
    Resolver → String → String → List String → List String → Fallible GoError (List ResourceRef)
unfolding get ref_from is_forbidden
exact_loop r kind name priority [] = ok []
exact_loop r kind name priority (ns ∷ nss) =
    let rest = exact_loop r kind name priority nss in
    if has_text priority ns then rest else elim (get r kind name ns) [
      | ok obj ↦ elim rest [ ok refs ↦ ok (ref_from obj kind ∷ refs) | err e ↦ err e ]
      | err e ↦ if is_forbidden e then err e else rest
    ]

-- the last loop: `prefixHits`, or the error with which it returns
unfoldable pub prefix_loop :
    Resolver → String → String → List String → Fallible GoError (List ResourceRef)
unfolding list prefix_filter is_forbidden
prefix_loop r kind name [] = ok []
prefix_loop r kind name (ns ∷ nss) =
    let rest = prefix_loop r kind name nss in
    elim (list r kind ns) [
      | ok items ↦ elim rest [
        | ok refs ↦ ok (prefix_filter kind items name true ++ refs)
        | err e ↦ err e
      ]
      | err e ↦ if is_forbidden e then err e else rest
    ]

-- what follows the loop over the other namespaces
unfoldable pub resolve_exact :
    Resolver → String → String → List String → List ResourceRef → ResolveResult
unfolding prefix_loop build_result text_of
resolve_exact r kind name all_ns (m ∷ []) = one_match m "exact"
resolve_exact r kind name all_ns (m ∷ n ∷ ms) =
    many_matches (m ∷ n ∷ ms) (text "multiple exact matches; specify namespace")
resolve_exact r kind name all_ns [] =
    if r.prefix_match
    then elim (prefix_loop r kind name all_ns) [
      | err e ↦ denied_by e
      | ok hits ↦ build_result kind name hits
    ]
    else no_match missing (
        text "No "
        <> text kind
        <> text " named "
        <> quoted name
        <> text " found in any accessible namespace.")

-- what follows the loop over `priority`
unfoldable pub resolve_elsewhere : Resolver → String → String → List String → ResolveResult
unfolding namespaces_of is_forbidden text_of exact_loop resolve_exact
resolve_elsewhere r kind name priority =
    let listed = namespaces_of r in
    elim (elim listed.1 as (λ _. Option GoError) [
      | none ↦ none
      | some e ↦ if is_forbidden e then some e else none
    ]) [
      | some e ↦ no_match denied (text "cannot list namespaces: " <> text (text_of e))
      | none ↦ elim (exact_loop r kind name priority listed.0) [
        | err e ↦ denied_by e
        | ok exact ↦ resolve_exact r kind name listed.0 exact
      ]
    ]

-- ResolveFilter
unfoldable pub resolve_filter : Resolver → String → String → String → Bool → ResolveResult
unfolding resolve_cluster_scoped resolve_in_namespace resolve_in_all priority_loop resolve_elsewhere
    unique context_namespace
resolve_filter r kind name namespace all_namespaces =
    let kind = normalize_kind kind in
    if name == ""
    then no_match missing (text "name is required")
    else if not (r.client.is_namespaced kind)
    then resolve_cluster_scoped r kind name
    else if not (namespace == "") && not all_namespaces
    then resolve_in_namespace r kind name namespace
    else if all_namespaces
    then resolve_in_all r kind name
    else (let priority = unique (namespace ∷ context_namespace r ∷ "default" ∷ []) in
        elim (priority_loop r kind name priority) [
          | some res ↦ res
          | none ↦ resolve_elsewhere r kind name priority
        ])

-- Resolve
unfoldable pub resolve : Resolver → String → String → String → ResolveResult
unfolding resolve_filter
resolve r kind name namespace = resolve_filter r kind name namespace false
