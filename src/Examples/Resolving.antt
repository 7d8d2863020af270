-- ===== src/Examples/Resolving.antt =====
-- internal/kube: a name that is a prefix of the name of one pod.
use kube_sre_mcp.Prelude.{
  String, Bool, true, false, [], ◌∷◌, ◌≡◌, ◌==◌, sym, ap, if◌then◌else◌, arith,
}
use kube_sre_mcp.Action.Store.{Fallible, ok, err}
use kube_sre_mcp.Kube.Errors.{GoError, foreign}
use kube_sre_mcp.Kube.Resolver.{Object, Client, Resolver}
use kube_sre_mcp.Kube.Resolver.Filter.{resolve_filter}
use kube_sre_mcp.Kube.Resolver.Sound.{IsSound, GetsByName}
use kube_sre_mcp.Kube.Resolver.Result.{resolve_filter-IsSound}

abbrev pod_named : String → Object
pod_named name = record { api_version = "v1"; namespace = "shop"; name = name; uid = "u" }

abbrev absent : GoError
absent = foreign (record {
  is_not_found = true;
  is_forbidden = false;
  is_unauthorized = false;
  is_timeout = false;
  is_net = false;
  message = "not found";
})

abbrev client : Client
client = record {
  gvr_for_kind = λ kind. ok "pods";
  is_namespaced = λ kind. true;
  get_object = λ gvr ns name. if name == "web-1" then ok (pod_named name) else err absent;
  list_objects = λ gvr ns. ok (pod_named "web-1" ∷ pod_named "db-1" ∷ []);
  list_namespaces = ok ("shop" ∷ []);
}

abbrev resolver : Resolver
resolver = record { client = client; namespace = "shop"; prefix_match = true }

-- the name of the object of a reply
abbrev name_in : String → Fallible GoError Object → String
name_in otherwise (ok o) = o.name
name_in otherwise (err e) = otherwise

reply_name :
    (name : String) (b : Bool) (o : Object)
    → (if◌then◌else◌ {A = Fallible GoError Object} b (ok (pod_named name)) (err absent)) ≡ ok o
    → o.name ≡ name
reply_name name true o h = sym (ap (name_in name) h)
reply_name name false o h = absurd (ground arith)

resolver-GetsByName : GetsByName resolver
resolver-GetsByName gvr ns name o h = reply_name name (name == "web-1") o h

resolve_filter-IsSound_example :
    IsSound resolver "web" (resolve_filter resolver "po" "web" "shop" false)
resolve_filter-IsSound_example =
    resolve_filter-IsSound resolver "po" "web" "shop" false resolver-GetsByName
