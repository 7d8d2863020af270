-- ===== src/Kube/Resolver/Sound.antt =====
-- internal/kube/resolver.go: what a result of ResolveFilter says.
use kube_sre_mcp.Prelude.{
  ◌≤◌, String, Bool, true, false, ◌&&◌, Option, none, some, List, [], ◌∷◌, ◌==◌, ◌≡◌, ◌⊎◌, refl,
  inl, inr, length, is_empty, Bool-cases, if◌then◌else◌, All, eq_iff, arith,
}
use kube_sre_mcp.Model.{ResourceRef}
use kube_sre_mcp.Message.{Message}
use kube_sre_mcp.Action.Store.{Fallible, ok, err, Fallible-cases}
use kube_sre_mcp.Kube.Kind.{normalize_kind}
use kube_sre_mcp.Kube.Errors.{GoError, classify, is_forbidden, text_of}
use kube_sre_mcp.Kube.Resolver.{
  ResolveStatus, found, ambiguous, missing, denied, ResolveResult, Object, Resolver, get, list,
  ref_from, is_prefix_hit, filter_loop, prefix_filter, no_match, one_match, build_result,
  classified,
}
use kube_sre_mcp.Kube.Resolver.Filter.{
  denied_by, from_listing, resolve_cluster_scoped, resolve_in_namespace, resolve_in_all,
}

-- a match by its name, or by a prefix where that is enabled
abbrev pub IsPrefixHit : Resolver → String → ResourceRef → Type 0
IsPrefixHit r name m = (r.prefix_match ≡ true) × (is_prefix_hit name m.name ≡ true)

abbrev pub IsHit : Resolver → String → ResourceRef → Type 0
IsHit r name m = (m.name ≡ name) ⊎ IsPrefixHit r name m

-- what each status says of the rest of a result
abbrev pub SaysOf : Resolver → String → ResolveResult → ResolveStatus → Type 0
SaysOf r name res found =
    (m : ResourceRef) × (res.match ≡ some m)
    × (((res.resolution ≡ "exact") × (m.name ≡ name))
        ⊎ ((res.resolution ≡ "prefix") × IsPrefixHit r name m))
SaysOf r name res ambiguous = (2 ≤ length res.matches) × All (IsHit r name) res.matches
SaysOf r name res missing = (res.match ≡ none) × (res.matches ≡ [])
SaysOf r name res denied = (res.match ≡ none) × (res.matches ≡ [])

abbrev pub IsSound : Resolver → String → ResolveResult → Type 0
IsSound r name res = SaysOf r name res res.status

-- the documented behaviour of a dynamic client's Get: the object has the name that is asked for
abbrev pub GetsByName : Resolver → Type 0
GetsByName r =
    (gvr ns name : String) (o : Object) → r.client.get_object gvr ns name ≡ ok o → o.name ≡ name

classified-ok : {A : Type 0} (x : Fallible GoError A) (a : A) → classified x ≡ ok a → x ≡ ok a
unfolding classify
classified-ok (ok b) a h = h
classified-ok (err e) a h = absurd (ground arith)

abbrev pub IsSoundIfAny : Resolver → String → Option ResolveResult → Type 0
IsSoundIfAny r name none = Unit
IsSoundIfAny r name (some res) = IsSound r name res

abbrev pub AreHits : (ResourceRef → Type 0) → Fallible GoError (List ResourceRef) → Type 0
AreHits P (ok ms) = All P ms
AreHits P (err e) = Unit

module _ (r : Resolver) (by_name : GetsByName r) (kind name : String)
    (given : (name == "") ≡ false) where
  pub get-name : (ns : String) (o : Object) → get r kind name ns ≡ ok o → o.name ≡ name
  unfolding get
  get-name ns o h = elim (Fallible-cases (r.client.gvr_for_kind (normalize_kind kind))) [
    | inl (e, q) ↦ absurd (ground arith)
    | inr (gvr, q) ↦ elim (Bool-cases (r.client.is_namespaced (normalize_kind kind))) [
      | inr f ↦ by_name gvr "" name o (classified-ok _ o (ground arith))
      | inl f ↦ elim (Bool-cases (ns == "")) [
        | inl g ↦ absurd (ground arith)
        | inr g ↦ by_name gvr ns name o (classified-ok _ o (ground arith))
      ]
    ]
  ]

  filter_loop-All :
      (prefix : Bool) (items : List Object)
      → prefix ≡ r.prefix_match
      → All (IsHit r name) (filter_loop kind name prefix items).0
        × All (IsHit r name) (filter_loop kind name prefix items).1
  unfolding filter_loop ref_from
  filter_loop-All prefix [] e = (tt, tt)
  filter_loop-All prefix (o ∷ items) e =
      let rest = filter_loop-All prefix items e in
      elim (Bool-cases (o.name == name)) [
        | inl f ↦ rw f ((inl ((eq_iff o.name name).0 f), rest.0), rest.1)
        | inr f ↦ elim (Bool-cases (prefix && is_prefix_hit name o.name)) [
          | inl g ↦ rw (f, g) (rest.0, (inr (ground arith, ground arith), rest.1))
          | inr g ↦ rw (f, g) rest
        ]
      ]

  pub prefix_filter-All :
      (prefix : Bool) (items : List Object)
      → prefix ≡ r.prefix_match
      → All (IsHit r name) (prefix_filter kind items name prefix)
  unfolding prefix_filter
  prefix_filter-All prefix items e =
      let both = filter_loop-All prefix items e in
      elim (Bool-cases (is_empty (filter_loop kind name prefix items).0)) [
        | inl f ↦ rw f both.1
        | inr f ↦ rw f both.0
      ]

  -- a hit of another name is one by a prefix
  prefix_only : (m : ResourceRef) → IsHit r name m → (m.name == name) ≡ false → IsPrefixHit r name m
  prefix_only m (inl q) e = absurd (ground (arith, eq_iff m.name name))
  prefix_only m (inr q) e = q

  pub build_result-IsSound :
      (ms : List ResourceRef) → All (IsHit r name) ms → IsSound r name (build_result kind name ms)
  unfolding build_result
  build_result-IsSound [] h = (refl, refl)
  build_result-IsSound (m ∷ []) (p, h) = elim (Bool-cases (m.name == name)) [
    | inl e ↦ rw (given, e) (m, refl, inl (refl, (eq_iff m.name name).0 e))
    | inr e ↦ rw (given, e) (m, refl, inr (refl, prefix_only m p e))
  ]
  build_result-IsSound (m ∷ n ∷ ms) h = (omega arith, h)

  pub denied_by-IsSound : (e : GoError) → IsSound r name (denied_by e)
  unfolding text_of
  denied_by-IsSound e = (refl, refl)

  pub found-IsSound :
      (o : Object) → o.name ≡ name → IsSound r name (one_match (ref_from o kind) "exact")
  unfolding ref_from
  found-IsSound o e = (_, refl, inl (refl, e))

  from_listing-IsSound :
      (prefix : Bool) (reply : Fallible GoError (List Object))
      → prefix ≡ r.prefix_match
      → IsSound r name (from_listing kind name prefix reply)
  unfolding build_result prefix_filter is_forbidden text_of
  from_listing-IsSound prefix (ok items) e =
      build_result-IsSound (prefix_filter kind items name prefix) (prefix_filter-All prefix items e)
  from_listing-IsSound prefix (err e) q = elim (Bool-cases (is_forbidden e)) [
    | inl f ↦ rw f (denied_by-IsSound e)
    | inr f ↦
        rw f
          (build_result-IsSound (prefix_filter kind [] name prefix) (prefix_filter-All prefix [] q))
  ]

  pub resolve_cluster_scoped-IsSound : IsSound r name (resolve_cluster_scoped r kind name)
  unfolding resolve_cluster_scoped
  resolve_cluster_scoped-IsSound = elim (Fallible-cases (get r kind name "")) [
    | inr (o, q) ↦ rw (q, resolve_cluster_scoped) (found-IsSound o (get-name "" o q))
    | inl (e, q) ↦ elim (Bool-cases (is_forbidden e)) [
      | inl f ↦ rw (q, f, resolve_cluster_scoped) (denied_by-IsSound e)
      | inr f ↦
          rw (q, f, resolve_cluster_scoped)
            (from_listing-IsSound r.prefix_match (list r kind "") refl)
    ]
  ]

  if_prefix_match :
      (ns : String) (message : Message) (b : Bool)
      → b ≡ r.prefix_match
      → IsSound r name
          (if b then from_listing kind name true (list r kind ns) else no_match missing message)
  if_prefix_match ns message true e = from_listing-IsSound true (list r kind ns) e
  if_prefix_match ns message false e = (refl, refl)

  pub resolve_in_namespace-IsSound :
      (ns : String) → IsSound r name (resolve_in_namespace r kind name ns)
  unfolding resolve_in_namespace
  resolve_in_namespace-IsSound ns = elim (Fallible-cases (get r kind name ns)) [
    | inr (o, q) ↦ rw (q, resolve_in_namespace) (found-IsSound o (get-name ns o q))
    | inl (e, q) ↦ elim (Bool-cases (is_forbidden e)) [
      | inl f ↦ rw (q, f, resolve_in_namespace) (denied_by-IsSound e)
      | inr f ↦ rw (q, f, resolve_in_namespace) (if_prefix_match ns _ r.prefix_match refl)
    ]
  ]

  pub resolve_in_all-IsSound : IsSound r name (resolve_in_all r kind name)
  unfolding resolve_in_all
  resolve_in_all-IsSound = elim (Fallible-cases (list r kind "")) [
    | inl (e, q) ↦ rw (q, resolve_in_all) (denied_by-IsSound e)
    | inr (items, q) ↦
        rw (q, resolve_in_all)
          (build_result-IsSound (prefix_filter kind items name r.prefix_match)
            (prefix_filter-All r.prefix_match items refl))
  ]
