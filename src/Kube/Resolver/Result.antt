-- ===== src/Kube/Resolver/Result.antt =====
-- internal/kube/resolver.go: the loops of ResolveFilter over namespaces, and its result.
use kube_sre_mcp.Prelude.{
  String, Bool, true, false, ◌&&◌, not, Option, none, some, List, [], ◌∷◌, ◌++◌, ◌==◌, ◌≡◌, refl,
  inl, inr, Bool-cases, if◌then◌else◌, All, All-append, arith,
}
use kube_sre_mcp.Model.{ResourceRef}
use kube_sre_mcp.Message.{Message}
use kube_sre_mcp.Action.Store.{Fallible, ok, err}
use kube_sre_mcp.Kube.Kind.{normalize_kind}
use kube_sre_mcp.Kube.Errors.{GoError, is_forbidden}
use kube_sre_mcp.Kube.Resolver.{
  missing, denied, ResolveResult, Object, Resolver, context_namespace, get, list, has_text, unique,
  namespaces_of, ref_from, prefix_filter, no_match, one_match, build_result,
}
use kube_sre_mcp.Kube.Resolver.Filter.{
  denied_by, priority_loop, exact_loop, prefix_loop, resolve_exact, resolve_elsewhere,
  resolve_filter,
}
use kube_sre_mcp.Kube.Resolver.Sound.{
  IsHit, IsSound, IsSoundIfAny, AreHits, GetsByName, resolve_cluster_scoped-IsSound,
  resolve_in_namespace-IsSound, resolve_in_all-IsSound, get-name, prefix_filter-All,
  build_result-IsSound, denied_by-IsSound, found-IsSound,
}

module _ (r : Resolver) (by_name : GetsByName r) (kind name : String)
    (given : (name == "") ≡ false) where
  priority_step :
      (reply : Fallible GoError Object) (rest : Option ResolveResult)
      → ((o : Object) → reply ≡ ok o → o.name ≡ name)
      → IsSoundIfAny r name rest
      → IsSoundIfAny r name (elim reply as (λ _. Option ResolveResult) [
        | ok obj ↦ some (one_match (ref_from obj kind) "exact")
        | err e ↦ if is_forbidden e then some (denied_by e) else rest
      ])
  priority_step (ok o) rest n h = found-IsSound r by_name kind name given o (n o refl)
  priority_step (err e) rest n h = elim (Bool-cases (is_forbidden e)) [
    | inl f ↦ rw f (denied_by-IsSound r by_name kind name given e)
    | inr f ↦ rw f h
  ]

  priority_loop-IsSound : (nss : List String) → IsSoundIfAny r name (priority_loop r kind name nss)
  unfolding priority_loop
  priority_loop-IsSound [] = tt
  priority_loop-IsSound (ns ∷ nss) =
      priority_step (get r kind name ns) (priority_loop r kind name nss)
        (get-name r by_name kind name given ns) (priority_loop-IsSound nss)

  exact_step :
      (reply : Fallible GoError Object) (rest : Fallible GoError (List ResourceRef))
      → ((o : Object) → reply ≡ ok o → o.name ≡ name)
      → AreHits (λ m. m.name ≡ name) rest
      → AreHits
          (λ m. m.name ≡ name)
          (elim reply as (λ _. Fallible GoError (List ResourceRef)) [
            | ok obj ↦ elim rest as (λ _. Fallible GoError (List ResourceRef)) [
              | ok refs ↦ ok (ref_from obj kind ∷ refs)
              | err e ↦ err e
            ]
            | err e ↦ if is_forbidden e then err e else rest
          ])
  unfolding ref_from
  exact_step (ok o) (ok refs) n h = (n o refl, h)
  exact_step (ok o) (err e) n h = tt
  exact_step (err e) rest n h = elim (Bool-cases (is_forbidden e)) [
    | inl f ↦ rw f tt
    | inr f ↦ rw f h
  ]

  exact_loop-All :
      (priority nss : List String)
      → AreHits (λ m. m.name ≡ name) (exact_loop r kind name priority nss)
  unfolding exact_loop
  exact_loop-All priority [] = tt
  exact_loop-All priority (ns ∷ nss) = elim (Bool-cases (has_text priority ns)) [
    | inl f ↦ rw f (exact_loop-All priority nss)
    | inr f ↦ rw f (
        exact_step (get r kind name ns) (exact_loop r kind name priority nss)
          (get-name r by_name kind name given ns) (exact_loop-All priority nss))
  ]

  prefix_step :
      (reply : Fallible GoError (List Object)) (rest : Fallible GoError (List ResourceRef))
      → true ≡ r.prefix_match
      → AreHits (IsHit r name) rest
      → AreHits (IsHit r name) (elim reply as (λ _. Fallible GoError (List ResourceRef)) [
        | ok items ↦ elim rest as (λ _. Fallible GoError (List ResourceRef)) [
          | ok refs ↦ ok (prefix_filter kind items name true ++ refs)
          | err e ↦ err e
        ]
        | err e ↦ if is_forbidden e then err e else rest
      ])
  prefix_step (ok items) (ok refs) p h =
      All-append (IsHit r name) _ refs (prefix_filter-All r by_name kind name given true items p) h
  prefix_step (ok items) (err e) p h = tt
  prefix_step (err e) rest p h = elim (Bool-cases (is_forbidden e)) [
    | inl f ↦ rw f tt
    | inr f ↦ rw f h
  ]

  prefix_loop-All :
      true ≡ r.prefix_match
      → (nss : List String) → AreHits (IsHit r name) (prefix_loop r kind name nss)
  unfolding prefix_loop
  prefix_loop-All p [] = tt
  prefix_loop-All p (ns ∷ nss) =
      prefix_step (list r kind ns) (prefix_loop r kind name nss) p (prefix_loop-All p nss)

  -- the result of the hits that a loop returns
  from_hits-IsSound :
      (reply : Fallible GoError (List ResourceRef))
      → AreHits (IsHit r name) reply
      → IsSound r name (elim reply as (λ _. ResolveResult) [
        | err e ↦ denied_by e
        | ok hits ↦ build_result kind name hits
      ])
  from_hits-IsSound (ok hits) h = build_result-IsSound r by_name kind name given hits h
  from_hits-IsSound (err e) h = denied_by-IsSound r by_name kind name given e

  names-All : (ms : List ResourceRef) → All (λ m. m.name ≡ name) ms → All (IsHit r name) ms
  names-All [] h = tt
  names-All (m ∷ ms) (p, h) = (inl p, names-All ms h)

  if_prefix_loop :
      (all_ns : List String) (message : Message) (b : Bool)
      → b ≡ r.prefix_match
      → IsSound r name (
          if b
          then elim (prefix_loop r kind name all_ns) as (λ _. ResolveResult) [
            | err e ↦ denied_by e
            | ok hits ↦ build_result kind name hits
          ]
          else no_match missing message)
  if_prefix_loop all_ns message true e =
      from_hits-IsSound (prefix_loop r kind name all_ns) (prefix_loop-All e all_ns)
  if_prefix_loop all_ns message false e = (refl, refl)

  resolve_exact-IsSound :
      (all_ns : List String) (ms : List ResourceRef)
      → All (λ m. m.name ≡ name) ms
      → IsSound r name (resolve_exact r kind name all_ns ms)
  unfolding resolve_exact
  resolve_exact-IsSound all_ns (m ∷ []) (p, h) = (m, refl, inl (refl, p))
  resolve_exact-IsSound all_ns (m ∷ n ∷ ms) h = (omega arith, names-All (m ∷ n ∷ ms) h)
  resolve_exact-IsSound all_ns [] h = if_prefix_loop all_ns _ r.prefix_match refl

  exact_result :
      (all_ns : List String) (reply : Fallible GoError (List ResourceRef))
      → AreHits (λ m. m.name ≡ name) reply
      → IsSound r name (elim reply as (λ _. ResolveResult) [
        | err e ↦ denied_by e
        | ok ms ↦ resolve_exact r kind name all_ns ms
      ])
  exact_result all_ns (ok ms) h = resolve_exact-IsSound all_ns ms h
  exact_result all_ns (err e) h = denied_by-IsSound r by_name kind name given e

  listed_result :
      (o : Option GoError) (message : GoError → Message) (res : ResolveResult)
      → IsSound r name res
      → IsSound r name
          (elim o as (λ _. ResolveResult) [ some e ↦ no_match denied (message e) | none ↦ res ])
  listed_result none message res h = h
  listed_result (some e) message res h = (refl, refl)

  resolve_elsewhere-IsSound :
      (priority : List String) → IsSound r name (resolve_elsewhere r kind name priority)
  unfolding resolve_elsewhere
  resolve_elsewhere-IsSound priority = listed_result _ _ _ (
      exact_result (namespaces_of r).0 (exact_loop r kind name priority (namespaces_of r).0)
        (exact_loop-All priority (namespaces_of r).0))

  priority_result :
      (o : Option ResolveResult) (otherwise : ResolveResult)
      → IsSoundIfAny r name o
      → IsSound r name otherwise
      → IsSound r name (elim o as (λ _. ResolveResult) [ some res ↦ res | none ↦ otherwise ])
  priority_result none otherwise h k = k
  priority_result (some res) otherwise h k = h

-- Where a Get answers with an object of the name it is asked for, each result of ResolveFilter is one of
-- these: found, with a match of exactly the name, or, where prefix matching is enabled, of a name that
-- starts with it, which has three bytes or more, and the resolution says which; ambiguous, with two or
-- more such matches; or not found or denied, without a match.
pub resolve_filter-IsSound :
    (r : Resolver) (kind name namespace : String) (all_namespaces : Bool)
    → GetsByName r
    → IsSound r name (resolve_filter r kind name namespace all_namespaces)
unfolding resolve_filter
resolve_filter-IsSound r raw name namespace all_namespaces by_name =
    let kind = normalize_kind raw in
    elim (Bool-cases (name == "")) [
      | inl e ↦ rw e (refl, refl)
      | inr e ↦ elim (Bool-cases (r.client.is_namespaced kind)) [
        | inr f ↦ rw (e, f) (resolve_cluster_scoped-IsSound r by_name kind name e)
        | inl f ↦ elim (Bool-cases (not (namespace == "") && not all_namespaces)) [
          | inl g ↦ rw (e, f, g) (resolve_in_namespace-IsSound r by_name kind name e namespace)
          | inr g ↦ elim (Bool-cases all_namespaces) [
            | inl h ↦ rw (e, f, g, h) (resolve_in_all-IsSound r by_name kind name e)
            | inr h ↦
                let priority = unique (namespace ∷ context_namespace r ∷ "default" ∷ []) in
                rw (e, f, g, h)
                  (priority_result r by_name kind name e (priority_loop r kind name priority) _
                    (priority_loop-IsSound r by_name kind name e priority)
                    (resolve_elsewhere-IsSound r by_name kind name e priority))
          ]
        ]
      ]
    ]
