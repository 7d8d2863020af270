-- ===== src/Diagnostic/Pod.antt =====
-- internal/diagnostic/pod.go: the signals that DiagnosePod reads off the status of a pod, before they are
-- numbered, and probeSignals; security.Redact is a parameter.
use Prim.Native.String
use kube_sre_mcp.Prelude.{
  ℕ, suc, ◌+◌, String, Bool, true, false, ◌&&◌, ◌||◌, not, Option, none, some, List, [], ◌∷◌, ◌++◌,
  ◌==◌, map, any, length, is_empty, if◌then◌else◌,
}
use kube_sre_mcp.Prelude.Int.{ℤ, pos, ℤ_lt, ℤ_eq}
use kube_sre_mcp.Prelude.Map.{StringMap, lookup, insert}
use kube_sre_mcp.Prelude.Text.{decimal, decimal_ℤ, join, to_lower, contains}
use kube_sre_mcp.Model.{Health, ResourceRef, Severity, Confidence, Visibility}
use kube_sre_mcp.Signal.{DiagnosticSignal, Source, new}
use kube_sre_mcp.Health.{health_eq}
use kube_sre_mcp.Kube.Types.{Condition, Terminated}
use kube_sre_mcp.Kube.Spec.{
  Probe, Container, Waiting, StatusObject, PodCondition, PodSpec, PodObject, NodeObject,
}
use kube_sre_mcp.Graph.Owners.{pod_ref}
use kube_sre_mcp.Diagnostic.Scheduler.{schedule_signals}
use kube_sre_mcp.Diagnostic.Dependencies.{PodInput, is_set, pod_faults, dep_signals}
use kube_sre_mcp.Diagnostic.Assemble.{DiagnosticResponse, assemble}
pub mod Diagnose
pub mod Critical

-- a signal, but for its number and its resource
pub record Draft : Type 0 where
  pub prefix : String
  pub source : Source
  pub category : String
  pub reason : String
  pub severity : Severity
  pub confidence : Confidence
  pub message : String

-- signal.New(next(), ...) of each, in order
unfoldable pub number_drafts : ResourceRef → ℕ → List Draft → List DiagnosticSignal
unfolding new decimal
number_drafts ref id [] = []
number_drafts ref id (d ∷ ds) =
    new (String.◌++◌ d.prefix (decimal id)) d.source d.category d.reason d.severity d.confidence ref
      d.message
    ∷ number_drafts ref (suc id) ds

-- texts put together
unfoldable pub concat : List String → String
concat [] = ""
concat (s ∷ ss) = String.◌++◌ s (concat ss)

abbrev pub draft_if : Bool → Draft → List Draft
draft_if test d = if test then d ∷ [] else []

abbrev pub status_draft : String → String → Severity → Confidence → List String → Draft
unfolding concat
status_draft category reason severity confidence message = record {
  prefix = "E-STATUS-";
  source = Source.status;
  category = category;
  reason = reason;
  severity = severity;
  confidence = confidence;
  message = concat message;
}

abbrev or_error : String → String
or_error reason = if reason == "" then "Error" else reason

module _ (redact : String → String) where
  abbrev waiting_drafts : String → Option Waiting → List Draft
  unfolding concat
  waiting_drafts name none = []
  waiting_drafts name (some w) = draft_if (not (w.reason == "")) (
      status_draft "Container" w.reason Severity.critical Confidence.confirmed
        ("container " ∷ name ∷ " waiting: " ∷ w.reason ∷ " – " ∷ redact w.message ∷ []))

  abbrev terminated_drafts : String → Option Terminated → List Draft
  unfolding concat decimal_ℤ
  terminated_drafts name none = []
  terminated_drafts name (some t) = draft_if (not (ℤ_eq t.exit_code (pos 0))) (
      status_draft "Container" (or_error t.reason) Severity.critical Confidence.confirmed (
        "container "
        ∷ name
        ∷ " terminated: "
        ∷ or_error t.reason
        ∷ " (exit "
        ∷ decimal_ℤ t.exit_code
        ∷ ")"
        ∷ []))

  abbrev last_drafts : String → Option Terminated → List Draft
  unfolding concat decimal_ℤ
  last_drafts name none = []
  last_drafts name (some ls) = draft_if (ls.reason == "OOMKilled") (
      status_draft "Memory" "OOMKilled" Severity.critical Confidence.confirmed
        ("container " ∷ name ∷ " last state OOMKilled (exit " ∷ decimal_ℤ ls.exit_code ∷ ")" ∷ []))

  -- the loop over the container statuses
  unfoldable pub status_drafts : List StatusObject → List Draft
  unfolding concat decimal_ℤ
  status_drafts [] = []
  status_drafts (cs ∷ rest) =
      waiting_drafts cs.name cs.waiting
      ++ terminated_drafts cs.name cs.terminated
      ++ last_drafts cs.name cs.last_terminated
      ++ draft_if (ℤ_lt (pos 0) cs.restart_count) (
          status_draft "Container" "Restarts"
            (if ℤ_lt (pos 5) cs.restart_count then Severity.critical else Severity.warning)
            Confidence.high
            ("container " ∷ cs.name ∷ " restartCount=" ∷ decimal_ℤ cs.restart_count ∷ []))
      ++ status_drafts rest

-- the loop over the conditions of the pod
unfoldable pub condition_drafts : List PodCondition → List Draft
unfolding concat
condition_drafts [] = []
condition_drafts (c ∷ cs) =
    draft_if (c.status == "False")
      (record (status_draft "Pod" c.type Severity.warning Confidence.high
        ("condition " ∷ c.type ∷ "=False: " ∷ c.message ∷ [])) { source = Source.condition })
    ++ condition_drafts cs

-- probeType
unfoldable pub probe_type : Probe → String
probe_type p =
    if p.http_get
    then "http"
    else if p.tcp_socket
    then "tcp"
    else if p.exec
    then "exec"
    else if p.grpc
    then "grpc"
    else "unknown"

-- the map `ready`
unfoldable pub ready_map : List StatusObject → StringMap Bool → StringMap Bool
unfolding insert
ready_map [] m = m
ready_map (cs ∷ rest) m = ready_map rest (insert cs.name cs.ready m)

unfoldable pub unhealthy_hint : List PodCondition → String
unfolding to_lower join concat
unhealthy_hint conditions =
    to_lower (join " " (map (λ c. concat (c.message ∷ " " ∷ c.reason ∷ [])) conditions))

abbrev probe_draft : String → List String → Draft
unfolding concat
probe_draft reason message = record {
  prefix = "E-PROBE-";
  source = Source.status;
  category = "Probe";
  reason = reason;
  severity = Severity.warning;
  confidence = Confidence.high;
  message = concat message;
}

abbrev probe_drafts : Bool → Option Probe → String → (String → List String) → List Draft
unfolding concat probe_type
probe_drafts test none reason message = []
probe_drafts test (some p) reason message =
    draft_if test (probe_draft reason (message (probe_type p)))

-- the loop of probeSignals
unfoldable pub probe_loop : Bool → StringMap Bool → String → List Container → List Draft
unfolding lookup concat probe_type contains
probe_loop is_running ready hint [] = []
probe_loop is_running ready hint (c ∷ cs) =
    probe_drafts (is_running && not (is_set ready c.name)) c.readiness_probe
      "READINESS_PROBE_FAILED"
      (λ pt.
        "container " ∷ c.name ∷ " is running but not ready; readinessProbe configured (" ∷ pt ∷ ")"
        ∷ [])
    ++ probe_drafts (contains hint "liveness") c.liveness_probe "LIVENESS_PROBE_FAILED"
        (λ pt. "container " ∷ c.name ∷ " livenessProbe failed (" ∷ pt ∷ ")" ∷ [])
    ++ probe_drafts (contains hint "startup") c.startup_probe "STARTUP_PROBE_FAILED"
        (λ pt. "container " ∷ c.name ∷ " startupProbe failed (" ∷ pt ∷ ")" ∷ [])
    ++ probe_loop is_running ready hint cs

-- probeSignals
unfoldable pub probe_signals : PodObject → List Draft
unfolding probe_loop ready_map unhealthy_hint
probe_signals p =
    probe_loop (p.phase == "Running") (ready_map p.container_statuses [])
      (unhealthy_hint p.conditions) p.spec.containers
