-- ===== src/Kube/Resolver.antt =====
-- internal/kube/resolver.go. What the API answers while one name is resolved, and the MapperCache, are
-- parameters; no call is made twice with the same arguments. A Get without an error has an object.
use Prim.Native.String
use kube_sre_mcp.Prelude.{
  String, Bool, true, false, ◌&&◌, ◌||◌, not, Option, none, some, List, [], ◌∷◌, ◌++◌, ◌==◌, any,
  is_empty, leb, if◌then◌else◌,
}
use kube_sre_mcp.Prelude.Text.{has_prefix}
use kube_sre_mcp.Message.{Message, text, quoted, ◌<>◌}
use kube_sre_mcp.Model.{ResourceRef}
use kube_sre_mcp.Action.Store.{Fallible, ok, err}
use kube_sre_mcp.Kube.Kind.{normalize_kind}
use kube_sre_mcp.Kube.Errors.{GoError, kube, KubeError, ErrorKind, classify, is_forbidden, text_of}
pub mod Filter
pub mod Sound
pub mod Result

pub data ResolveStatus : Type 0 where
  found ambiguous missing denied : ResolveStatus

pub record ResolveResult : Type 0 where
  pub status : ResolveStatus
  pub match : Option ResourceRef
  pub matches : List ResourceRef
  pub message : Message
  pub resolution : String

-- unstructured.Unstructured, by its getters
pub record Object : Type 0 where
  pub api_version : String
  pub namespace : String
  pub name : String
  pub uid : String

-- the mapper, and the dynamic client's calls by resource, namespace ("" for none) and name
pub record Client : Type 0 where
  pub gvr_for_kind : String → Fallible GoError String
  pub is_namespaced : String → Bool
  pub get_object : String → String → String → Fallible GoError Object
  pub list_objects : String → String → Fallible GoError (List Object)
  pub list_namespaces : Fallible GoError (List String)

pub record Resolver : Type 0 where
  pub client : Client
  pub namespace : String  -- of the ClusterClient
  pub prefix_match : Bool

-- ContextNamespace
unfoldable pub context_namespace : Resolver → String
context_namespace r = if r.namespace == "" then "default" else r.namespace

abbrev pub classified : {A : Type 0} → Fallible GoError A → Fallible GoError A
unfolding classify
classified (ok a) = ok a
classified (err e) = err (kube (classify e))

-- Resolver.Get
unfoldable pub get : Resolver → String → String → String → Fallible GoError Object
unfolding classify
get r kind name namespace = elim (r.client.gvr_for_kind (normalize_kind kind)) [
  | err e ↦ err e
  | ok gvr ↦
      if not (r.client.is_namespaced (normalize_kind kind))
      then classified (r.client.get_object gvr "" name)
      else if namespace == ""
      then err (
          kube (record {
            kind = ErrorKind.invalid;
            message = "namespace required";
            resource = "";
            namespace = "";
          }))
      else classified (r.client.get_object gvr namespace name)
]

-- Resolver.List, without selectors
unfoldable pub list : Resolver → String → String → Fallible GoError (List Object)
unfolding classify
list r kind namespace = elim (r.client.gvr_for_kind (normalize_kind kind)) [
  | err e ↦ err e
  | ok gvr ↦
      if not (r.client.is_namespaced (normalize_kind kind)) || namespace == ""
      then classified (r.client.list_objects gvr "")
      else classified (r.client.list_objects gvr namespace)
]

-- contains
abbrev pub has_text : List String → String → Bool
has_text ss v = any (λ s. s == v) ss

-- unique
unfoldable pub unique_from : List String → List String → List String
unique_from seen [] = []
unique_from seen (s ∷ ss) =
    let skipped = unique_from seen ss in
    let rest = unique_from (s ∷ seen) ss in
    if s == "" then skipped else if has_text seen s then skipped else s ∷ rest

unfoldable pub unique : List String → List String
unfolding unique_from
unique ss = unique_from [] ss

-- listNamespaces: the names, and the error
unfoldable pub namespaces_of : Resolver → List String × Option GoError
unfolding context_namespace is_forbidden classify unique
namespaces_of r = elim r.client.list_namespaces [
  | err e ↦
      if is_forbidden e
      then (context_namespace r ∷ "default" ∷ [], some (kube (classify e)))
      else (context_namespace r ∷ "default" ∷ [], some e)
  | ok names ↦ (unique names, none)
]

-- refFrom
unfoldable pub ref_from : Object → String → ResourceRef
ref_from obj kind = record {
  api_version = obj.api_version;
  kind = kind;
  namespace = obj.namespace;
  name = obj.name;
  uid = obj.uid;
}

-- the name is long enough, and the object's name starts with it
abbrev pub is_prefix_hit : String → String → Bool
is_prefix_hit name n = leb 3 (String.len name) && has_prefix n name

-- the two lists of prefixFilter
unfoldable pub filter_loop :
    String → String → Bool → List Object → List ResourceRef × List ResourceRef
unfolding ref_from
filter_loop kind name prefix [] = ([], [])
filter_loop kind name prefix (o ∷ items) =
    let rest = filter_loop kind name prefix items in
    if o.name == name
    then (ref_from o kind ∷ rest.0, rest.1)
    else if prefix && is_prefix_hit name o.name
    then (rest.0, ref_from o kind ∷ rest.1)
    else rest

-- prefixFilter
unfoldable pub prefix_filter : String → List Object → String → Bool → List ResourceRef
unfolding filter_loop
prefix_filter kind items name prefix =
    let hits = filter_loop kind name prefix items in if is_empty hits.0 then hits.1 else hits.0

abbrev pub no_match : ResolveStatus → Message → ResolveResult
no_match status message = record {
  status = status;
  match = none;
  matches = [];
  message = message;
  resolution = "";
}

abbrev pub one_match : ResourceRef → String → ResolveResult
one_match m resolution = record {
  status = found;
  match = some m;
  matches = [];
  message = text "";
  resolution = resolution;
}

abbrev pub many_matches : List ResourceRef → Message → ResolveResult
many_matches ms message = record {
  status = ambiguous;
  match = none;
  matches = ms;
  message = message;
  resolution = "";
}

-- buildResult
unfoldable pub build_result : String → String → List ResourceRef → ResolveResult
build_result kind query [] = no_match missing (text "No " <> text kind <> text " matching query.")
build_result kind query (m ∷ []) =
    one_match m (if not (query == "") && not (m.name == query) then "prefix" else "exact")
build_result kind query (m ∷ n ∷ ms) =
    many_matches (m ∷ n ∷ ms) (text "ambiguous matches; specify namespace or exact name")
