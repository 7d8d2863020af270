-- ===== src/Diagnostic/Pod/Diagnose.antt =====
-- internal/diagnostic/pod.go: DiagnosePod, with nodeConditionSignals and UnhealthyPod. The counter `id` of
-- the signals is passed on. The object's name is that of the pod.
use kube_sre_mcp.Prelude.{
  ℕ, ◌+◌, String, Bool, true, false, ◌&&◌, ◌||◌, not, Option, none, some, is_some, List, [], ◌∷◌,
  ◌++◌, ◌==◌, any, length, is_empty, if◌then◌else◌,
}
use kube_sre_mcp.Prelude.Int.{pos, ℤ_lt}
use kube_sre_mcp.Prelude.Text.{to_lower, contains}
use kube_sre_mcp.Model.{Health, Severity, Confidence, Visibility}
use kube_sre_mcp.Signal.{DiagnosticSignal, Source}
use kube_sre_mcp.Health.{health_eq}
use kube_sre_mcp.Kube.Types.{Condition}
use kube_sre_mcp.Kube.Spec.{PodObject, NodeObject}
use kube_sre_mcp.Graph.Owners.{pod_ref}
use kube_sre_mcp.Diagnostic.Scheduler.{schedule_signals}
use kube_sre_mcp.Diagnostic.Dependencies.{PodInput, pod_faults, dep_signals}
use kube_sre_mcp.Diagnostic.Assemble.{DiagnosticResponse, assemble}
use kube_sre_mcp.Diagnostic.Pod.{
  Draft, draft_if, status_draft, concat, number_drafts, status_drafts, condition_drafts,
  probe_signals,
}

-- `healthy` of nodeConditionSignals
abbrev is_good_condition : Condition → Bool
is_good_condition c =
    (c.type == "Ready" && c.status == "True") || (not (c.type == "Ready") && c.status == "False")

-- nodeConditionSignals
unfoldable pub node_condition_drafts : String → List Condition → List Draft
unfolding concat
node_condition_drafts name [] = []
node_condition_drafts name (c ∷ cs) =
    draft_if (not (is_good_condition c)) (record {
      prefix = "E-NODE-";
      source = Source.condition;
      category = "Node";
      reason = c.type;
      severity = Severity.critical;
      confidence = Confidence.confirmed;
      message =
          concat ("node " ∷ name ∷ " condition " ∷ c.type ∷ "=" ∷ c.status ∷ ": " ∷ c.message ∷ []);
    })
    ++ node_condition_drafts name cs

-- what DiagnosePod says of the pod's node
unfoldable pub node_drafts : Option NodeObject → List Draft
unfolding node_condition_drafts concat
node_drafts none = []
node_drafts (some node) =
    node_condition_drafts node.name node.conditions
    ++ draft_if node.unschedulable
        (record (status_draft "Node" "unschedulable" Severity.warning Confidence.high
          ("scheduled/target node " ∷ node.name ∷ " is cordoned" ∷ [])) {
            source = Source.scheduler;
          })

abbrev memory_draft : Draft
unfolding concat
memory_draft =
    record (status_draft "Memory" "high_memory" Severity.warning Confidence.low (
      "current memory usage is high versus container limit (supporting evidence only; not a leak or future OOM prediction)"
      ∷ [])) { source = Source.metric }

-- the names of the constraints that are not supported
unfoldable pub unsupported_names : List String → List String
unfolding to_lower contains
unsupported_names [] = []
unsupported_names (u ∷ us) =
    (if contains (to_lower u) "anti-affinity" then "podAntiAffinity" ∷ [] else [])
    ++ (if contains (to_lower u) "topologyspread" then "topologySpreadConstraints" ∷ [] else [])
    ++ unsupported_names us

-- uniqueStrings
unfoldable pub distinct_texts : List String → List String → List String
distinct_texts seen [] = []
distinct_texts seen (s ∷ ss) =
    let skipped = distinct_texts seen ss in
    let rest = distinct_texts (s ∷ seen) ss in
    if s == "" || any (λ t. t == s) seen then skipped else s ∷ rest

pub record SchedulerAnalysis : Type 0 where
  pub mode : String
  pub unsupported : List String

pub record PodDiagnosis : Type 0 where
  pub response : DiagnosticResponse
  pub schedule_mode : String
  pub scheduler_analysis : Option SchedulerAnalysis

-- the rest of PodInput
pub record PodContext : Type 0 where
  pub node : Option NodeObject
  pub candidate_nodes : List (Option NodeObject)
  pub candidates_listed : Bool
  pub unsupported_constraints : List String
  pub events : List DiagnosticSignal
  pub log_signals : List DiagnosticSignal
  pub high_memory : Bool
  pub visibility : Option Visibility

-- the signals of DiagnosePod up to those of the scheduler, with the mode and the counter
unfoldable pub signals_before :
    (String → String) → PodObject → PodContext → List DiagnosticSignal × String × ℕ
unfolding pod_ref status_drafts condition_drafts probe_signals number_drafts schedule_signals
signals_before redact p ctx =
    let ref = pod_ref p.meta in
    let status =
      status_drafts redact (p.init_container_statuses ++ p.container_statuses)
      ++ condition_drafts p.conditions in
    let probes = probe_signals p in
    let sched =
      schedule_signals p.phase p.spec ctx.node ctx.candidate_nodes ctx.candidates_listed
        ctx.unsupported_constraints ref (1 + length status + length probes) in
    (number_drafts ref 1 (status ++ probes) ++ sched.0, sched.1, sched.2)

-- its signals behind those of the dependencies
unfoldable pub signals_after : PodObject → PodContext → ℕ → List DiagnosticSignal
unfolding pod_ref number_drafts node_drafts
signals_after p ctx id =
    number_drafts (pod_ref p.meta) id
      (node_drafts ctx.node ++ draft_if ctx.high_memory memory_draft)
    ++ ctx.events
    ++ ctx.log_signals

-- the signals of DiagnosePod, in order, and the mode
unfoldable pub pod_signals :
    (String → String) → PodObject → PodInput → PodContext → List DiagnosticSignal × String
unfolding pod_ref signals_before dep_signals pod_faults signals_after
pod_signals redact p input ctx =
    let before = signals_before redact p ctx in
    let deps = dep_signals input p.spec (pod_ref p.meta) before.2 in
    let after = signals_after p ctx (before.2 + length (pod_faults input p.spec)) in
    (before.0 ++ (deps ++ after), before.1)

-- the last lines of DiagnosePod
unfoldable pub pod_summary : PodObject → Health → String → String
unfolding concat
pod_summary p health summary =
    if p.phase == "Running" && health_eq health Health.healthy
    then concat ("Pod " ∷ p.meta.name ∷ " appears healthy and running." ∷ [])
    else if summary == ""
    then concat ("Pod " ∷ p.meta.name ∷ " is in " ∷ p.phase ∷ " state." ∷ [])
    else summary

-- DiagnosePod
unfoldable pub diagnose_pod : (String → String) → PodObject → PodInput → PodContext → PodDiagnosis
unfolding pod_signals pod_ref assemble unsupported_names distinct_texts pod_summary
diagnose_pod redact p input ctx =
    let made = pod_signals redact p input ctx in
    let resp = assemble (pod_ref p.meta) made.0 ctx.visibility "full" in
    record {
      response = record resp { summary = pod_summary p resp.health resp.summary };
      schedule_mode = made.1;
      scheduler_analysis =
          if not (made.1 == "") || not (is_empty ctx.unsupported_constraints)
          then some (record {
            mode = made.1;
            unsupported = distinct_texts [] (unsupported_names ctx.unsupported_constraints);
          })
          else none;
    }

-- UnhealthyPod
unfoldable pub unhealthy_pod : PodObject → Bool
unhealthy_pod p =
    if p.phase == "Succeeded"
    then false
    else if not (p.phase == "Running")
    then true
    else any (λ cs. not cs.ready || ℤ_lt (pos 5) cs.restart_count || is_some cs.waiting)
        p.container_statuses
