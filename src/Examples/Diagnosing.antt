-- ===== src/Examples/Diagnosing.antt =====
-- internal/diagnostic: a pending pod, two functions on one place, two calls of the cache.
use kube_sre_mcp.Prelude.{
  ◌+◌, ◌*◌, ◌≤◌, String, true, false, Option, none, some, List, [], ◌∷◌, ◌≡◌, ◌≢◌, length, ◌⊎◌, ◌↔◌,
  refl, sym, inl, inr, eq_iff, is_empty, is_some, All, map, if◌then◌else◌, arith,
}
use kube_sre_mcp.Prelude.Int.{pos, pos_part}
use kube_sre_mcp.Prelude.Sort.{IsRanked}
use mathlib.Core.List.{Perm}
use kube_sre_mcp.Model.{Health, ResourceRef, Severity, Confidence}
use kube_sre_mcp.Signal.{DiagnosticSignal, Source, new}
use kube_sre_mcp.Health.{evaluate, limited, health_eq}
use kube_sre_mcp.Kube.Spec.{PodObject, PodSpec, NodeObject}
use kube_sre_mcp.Prelude.Map.{lookup, insert}
use kube_sre_mcp.Diagnostic.Scheduler.{contains_str}
use kube_sre_mcp.Diagnostic.Dependencies.{PodInput, dep_signals}
use kube_sre_mcp.Diagnostic.Dependencies.Met.{HasServiceAccount}
use kube_sre_mcp.Diagnostic.Dependencies.Result.{HasDependencies, dep_signals_iff}
use kube_sre_mcp.Diagnostic.Pod.Diagnose.{PodContext, diagnose_pod}
use kube_sre_mcp.Diagnostic.Pod.Critical.{diagnose_pod-critical}
use kube_sre_mcp.Diagnostic.Bounded.{
  Worker, waiting, running, finished, Pool, is_running, count, channel_size, start_pool, WorkerStep,
  work, begin, end, Run, stop, next,
}
use kube_sre_mcp.Diagnostic.Bounded.Runs.{IsCapacity, is_skipped, goroutines-IsBounded}
use kube_sre_mcp.Diagnostic.Bounded.Ends.{is_finished, goroutines_end}
use kube_sre_mcp.Diagnostic.Cache
use kube_sre_mcp.Diagnostic.Cache.{
  Load, Call, Progress, loading, answered, Caller, Calls, look, store_loaded, start_calls, looks,
  settles,
}
use kube_sre_mcp.Diagnostic.Cache.Answers.{IsAnswer, IsLoaded, answers-IsLoaded}
use kube_sre_mcp.Diagnostic.Assemble.{
  to_evidence, scope_signals, first_cause, assemble, demote_confirmed,
}
use kube_sre_mcp.Diagnostic.Coherent.{
  DiffersInAction, IsUnconfirmed, IsUnconfirmedIfAny, assemble-IsCoherent,
}

abbrev web_ref : ResourceRef
web_ref = record { api_version = "v1"; kind = "Pod"; namespace = "shop"; name = "web-1"; uid = "u" }

abbrev spec : PodSpec
spec = record {
  node_name = "";
  service_account_name = "web";
  image_pull_secrets = [];
  containers = [];
  init_containers = [];
  volumes = [];
  node_selector = ("disk", "ssd") ∷ [];
  tolerations = record { key = "gpu"; operator = "Exists"; value = ""; effect = "" } ∷ [];
  required_affinity = none;
}

abbrev node : String → String → NodeObject
node name disk = record {
  name = name;
  labels = ("disk", disk) ∷ [];
  unschedulable = false;
  taints = record { key = "gpu"; value = "yes"; effect = "NoSchedule" } ∷ [];
  conditions = record { type = "Ready"; status = "True"; message = "" } ∷ [];
  allocatable_cpu = 4000;
  allocatable_memory = 8000;
}

abbrev candidates : List (Option NodeObject)
candidates = some (node "a" "hdd") ∷ none ∷ some (node "b" "ssd") ∷ []

abbrev pool : Worker → Worker → Pool
pool a b = record { limit = 1; direct = false; cancelled = false; workers = a ∷ b ∷ [] }

two_steps : Run (start_pool (pos 1) (pos 2) false) 2 (pool finished waiting)
unfolding start_pool channel_size
two_steps =
    next 1 (pool running waiting) (pool finished waiting)
      (next 0 (pool waiting waiting) (pool running waiting) stop
        (work (begin (pool waiting waiting) [] (waiting ∷ []) refl (omega arith))))
      (work (end (pool running waiting) [] (waiting ∷ []) refl))

goroutines-IsBounded_example :
    let q = pool finished waiting in
    (length q.workers ≡ pos_part (pos 2))
    × (count is_running q.workers ≤ q.limit)
    × IsCapacity (pos 1) q.limit
    × ((count is_skipped q.workers ≡ 0) ⊎ ((q.cancelled ≡ true) × (pos 2 ≢ pos 1)))
goroutines-IsBounded_example =
    goroutines-IsBounded (pos 1) (pos 2) false 2 (pool finished waiting) two_steps

goroutines_end_example :
    (2 ≤ 2 * 2 + 1)
    × ((count is_finished (pool finished waiting).workers
            + count is_skipped (pool finished waiting).workers
          ≡ 2)
        ⊎ ((r : Pool) × WorkerStep (pool finished waiting) r))
goroutines_end_example = goroutines_end (pos 1) (pos 2) false 2 (pool finished waiting) two_steps

-- two calls for one key that both find nothing and load
abbrev timed_out : Call String
timed_out = record { key = "pods|shop"; load = record { value = "timeout"; transient = true } }

abbrev loaded_first : Call String
loaded_first = record { key = "pods|shop"; load = record { value = "first"; transient = false } }

abbrev two_calls : List (Call String)
two_calls = timed_out ∷ loaded_first ∷ []

abbrev caller : Call String → Progress String → Caller String
caller c p = record { call = c; progress = p }

abbrev later_calls : Calls String
later_calls = record {
  held = ("pods|shop", "first") ∷ [];
  callers = caller timed_out loading ∷ caller loaded_first (answered "first") ∷ [];
}

two_misses : Cache.Run (start_calls two_calls) later_calls
unfolding look store_loaded lookup insert
two_misses =
    Cache.next _ _
      (Cache.next _ _
        (Cache.next _ _ Cache.stop (
          looks (start_calls two_calls) [] timed_out (caller loaded_first Progress.waiting ∷ [])
            refl))
        (looks
          (record {
            held = [];
            callers = caller timed_out loading ∷ caller loaded_first Progress.waiting ∷ [];
          })
          (caller timed_out loading ∷ []) loaded_first [] refl))
      (settles
        (record {
          held = [];
          callers = caller timed_out loading ∷ caller loaded_first loading ∷ [];
        })
        (caller timed_out loading ∷ []) loaded_first [] refl)

answers-IsLoaded_example :
    All (λ w. IsAnswer two_calls later_calls.held w.call w.progress) later_calls.callers
    × ((c : Call String)
        → is_some (lookup c.key later_calls.held) ≡ true
        → (v : String) × (look later_calls.held c ≡ answered v) × IsLoaded two_calls c.key v)
answers-IsLoaded_example = answers-IsLoaded two_calls later_calls two_misses

abbrev signals : List DiagnosticSignal
signals =
    new "E-1" Source.status "Memory" "OOMKilled" Severity.critical Confidence.confirmed web_ref
      "OOMKilled"
    ∷ new "E-2" Source.event "Storage" "FailedMount" Severity.critical Confidence.high web_ref
        "no volume"
    ∷ []

assemble-IsCoherent_example :
    ((assemble web_ref signals none "full").health ≡ evaluate signals none)
    × (((assemble web_ref signals none "full").status ≡ "partial") ↔ (limited none ≡ true))
    × ((assemble web_ref signals none "full").root_cause ≡ (
        if health_eq (evaluate signals none) Health.healthy
        then none
        else first_cause (assemble web_ref signals none "full").root_causes))
    × Perm
        (assemble web_ref signals none "full").evidence
        (map to_evidence (scope_signals web_ref signals))
    × IsRanked DiffersInAction (assemble web_ref signals none "full").recommendations
    × IsUnconfirmedIfAny (demote_confirmed (assemble web_ref signals none "full")).root_cause
    × All IsUnconfirmed (demote_confirmed (assemble web_ref signals none "full")).root_causes
assemble-IsCoherent_example = assemble-IsCoherent web_ref signals none "full"

-- nothing was found, and nothing could not be read
abbrev found : PodInput
found = record {
  config_maps = [];
  config_map_unknown = [];
  secret_keys = none;
  secrets_exist = [];
  secret_unknown = [];
  claims = [];
  claim_unknown = [];
  service_account = false;
  service_account_unknown = false;
}

abbrev pending : PodObject
pending = record {
  meta = record {
    name = "web-1";
    namespace = "shop";
    uid = "u";
    labels = [];
    annotations = [];
    owner_references = [];
  };
  spec = spec;
  phase = "Pending";
  conditions = [];
  init_container_statuses = [];
  container_statuses = [];
}

abbrev context : PodContext
context = record {
  node = none;
  candidate_nodes = candidates;
  candidates_listed = true;
  unsupported_constraints = [];
  events = [];
  log_signals = [];
  high_memory = false;
  visibility = none;
}

dep_signals_iff_example :
    (is_empty (dep_signals found spec web_ref 1) ≡ true) ↔ HasDependencies found spec
dep_signals_iff_example = dep_signals_iff found spec web_ref 1

true_is_not_false : true ≡ false → ⊥
true_is_not_false h = ground arith

no_account : HasServiceAccount found "web" → ⊥
no_account (inl e) = true_is_not_false (sym ((eq_iff "web" "").1 e))
no_account (inr (inl e)) = ground arith
no_account (inr (inr e)) = ground arith

lacks_account : HasDependencies found spec → ⊥
unfolding lookup contains_str
lacks_account m = no_account m.1.1.1.0

diagnose_pod-critical_example :
    (diagnose_pod (λ s. s) pending found context).response.health ≡ Health.critical
diagnose_pod-critical_example = diagnose_pod-critical (λ s. s) pending found context lacks_account
