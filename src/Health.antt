-- ===== src/Health.antt =====
-- internal/health/health.go: the health that signals, counts, pods and nodes stand for.
pub mod Verdicts
pub mod Pods
pub mod Report
use Prim.Native.String
use kube_sre_mcp.Prelude.{
  ℕ, suc, ◌+◌, String, Bool, true, false, not, ◌&&◌, ◌||◌, Option, none, some, List, [], ◌∷◌, ◌++◌,
  ◌==◌, any, is_empty, if◌then◌else◌,
}
use kube_sre_mcp.Prelude.Int.{ℤ, pos, ℤ_eq, ℤ_lt}
use kube_sre_mcp.Prelude.Text.{decimal}
use kube_sre_mcp.Model.{Health, Severity, Confidence, ResourceRef, Visibility}
use kube_sre_mcp.Signal.{DiagnosticSignal, Source, new, is_critical, is_warning}
use kube_sre_mcp.Kube.Types.{Terminated, ContainerStatus, Pod, Condition, Node}

abbrev pub has_critical : List DiagnosticSignal → Bool
has_critical = any (λ s. is_critical s.severity)

abbrev pub has_warning : List DiagnosticSignal → Bool
has_warning = any (λ s. is_warning s.severity)

-- requiredMissing
abbrev pub required_missing : Visibility → Bool
required_missing v = not (is_empty v.missing_permissions) || not (is_empty v.failed_checks)

abbrev pub limited : Option Visibility → Bool
limited none = false
limited (some v) = v.limited

abbrev misses_required : Option Visibility → Bool
misses_required none = false
misses_required (some v) = v.limited && required_missing v

-- Evaluate
unfoldable pub evaluate : List DiagnosticSignal → Option Visibility → Health
evaluate signals vis =
    if misses_required vis && (not (has_critical signals) && is_empty signals)
    then Health.unknown
    else if has_critical signals
    then Health.critical
    else if has_warning signals
    then Health.degraded
    else if limited vis && is_empty signals
    then Health.unknown
    else Health.healthy

abbrev pub health_eq : Health → Health → Bool
health_eq Health.healthy Health.healthy = true
health_eq Health.degraded Health.degraded = true
health_eq Health.critical Health.critical = true
health_eq Health.unknown Health.unknown = true
health_eq _ _ = false

-- Combine
unfoldable pub combine : List Health → Health
combine states =
    if any (λ h. health_eq h Health.critical) states
    then Health.critical
    else if any (λ h. health_eq h Health.degraded) states
    then Health.degraded
    else if any (λ h. health_eq h Health.unknown) states
    then Health.unknown
    else Health.healthy

-- FromCounts
unfoldable pub from_counts : ℤ → ℤ → Bool → Health
from_counts desired ready failed =
    if failed || (ℤ_lt (pos 0) desired && ℤ_eq ready (pos 0))
    then Health.critical
    else if ℤ_lt ready desired
    then Health.degraded
    else Health.healthy

abbrev pub healthy_condition : Condition → Bool
healthy_condition c =
    (c.type == "Ready" && c.status == "True") || (not (c.type == "Ready") && c.status == "False")

abbrev pub node_ref : Node → ResourceRef
node_ref n = record { api_version = ""; kind = "Node"; namespace = ""; name = n.name; uid = n.uid }

-- the loop over the conditions, from index `i`
unfoldable pub condition_signals : ResourceRef → ℕ → List Condition → List DiagnosticSignal
condition_signals ref i [] = []
condition_signals ref i (c ∷ cs) =
    let rest = condition_signals ref (suc i) cs in
    if not (healthy_condition c)
    then new (String.◌++◌ "E-NODE-" (decimal i)) Source.condition "Node" c.type Severity.critical
        Confidence.confirmed ref c.message
      ∷ rest
    else rest

unfoldable pub cordon_signals : Node → List DiagnosticSignal
cordon_signals n =
    if n.unschedulable
    then new "E-NODE-CORDON" Source.status "Node" "Cordoned" Severity.warning Confidence.confirmed
        (node_ref n) "cordoned"
      ∷ []
    else []

-- NodeStatusSignals
unfoldable pub node_status_signals : Node → List DiagnosticSignal
unfolding condition_signals cordon_signals
node_status_signals n = condition_signals (node_ref n) 0 n.conditions ++ cordon_signals n

abbrev pub pod_ref : Pod → ResourceRef
pod_ref p = record {
  api_version = "";
  kind = "Pod";
  namespace = p.namespace;
  name = p.name;
  uid = p.uid;
}

-- a signal without its ID, which `number` gives
pub record Draft : Type 0 where
  pub category : String
  pub reason : String
  pub severity : Severity
  pub confidence : Confidence
  pub message : String

abbrev pub draft_if : Bool → String → String → Severity → Confidence → String → List Draft
draft_if test category reason severity confidence message =
    if test
    then record {
      category = category;
      reason = reason;
      severity = severity;
      confidence = confidence;
      message = message;
    }
      ∷ []
    else []

abbrev pub waiting_drafts : Option String → List Draft
waiting_drafts none = []
waiting_drafts (some reason) =
    draft_if (not (reason == "")) "Container" reason Severity.critical Confidence.confirmed reason

abbrev pub terminated_drafts : Option Terminated → List Draft
terminated_drafts none = []
terminated_drafts (some t) =
    let reason = if t.reason == "" then "Error" else t.reason in
    draft_if (not (ℤ_eq t.exit_code (pos 0))) "Container" reason Severity.critical
      Confidence.confirmed reason

abbrev pub oom_drafts : Option Terminated → List Draft
oom_drafts none = []
oom_drafts (some t) =
    draft_if (t.reason == "OOMKilled") "Memory" "OOMKilled" Severity.critical Confidence.confirmed
      "OOMKilled"

abbrev pub restart_drafts : ℤ → List Draft
restart_drafts n =
    if ℤ_lt (pos 5) n
    then draft_if true "Container" "Restarts" Severity.critical Confidence.high "high restarts"
    else draft_if (ℤ_lt (pos 0) n) "Container" "Restarts" Severity.warning Confidence.high
        "restarts"

abbrev pub readiness_drafts : Bool → Bool → List Draft
readiness_drafts running ready =
    draft_if (running && not ready) "Probe" "READINESS_PROBE_FAILED" Severity.warning
      Confidence.high "container not ready"

-- one round of the loop over the containers
unfoldable pub container_drafts : Bool → ContainerStatus → List Draft
container_drafts running cs =
    waiting_drafts cs.waiting
    ++ (terminated_drafts cs.terminated
        ++ (oom_drafts cs.last_terminated
            ++ (restart_drafts cs.restart_count ++ readiness_drafts running cs.ready)))

unfoldable pub containers_drafts : Bool → List ContainerStatus → List Draft
unfolding container_drafts
containers_drafts running [] = []
containers_drafts running (cs ∷ css) = container_drafts running cs ++ containers_drafts running css

-- each draft with the next value of `next()`
unfoldable pub number : ResourceRef → ℕ → List Draft → List DiagnosticSignal
number ref id [] = []
number ref id (d ∷ ds) =
    new (String.◌++◌ "E-INV-" (decimal id)) Source.status d.category d.reason d.severity
      d.confidence ref d.message
    ∷ number ref (suc id) ds

abbrev pub all_statuses : Pod → List ContainerStatus
all_statuses p = p.init_container_statuses ++ p.container_statuses

abbrev pub failed_drafts : String → List Draft
failed_drafts phase =
    draft_if (phase == "Failed") "Pod" phase Severity.critical Confidence.confirmed "pod failed"

abbrev pub pending_drafts : String → List Draft
pending_drafts phase =
    draft_if (phase == "Pending") "Pod" "Pending" Severity.critical Confidence.high "pod pending"

unfoldable pub phase_drafts : String → List Draft
phase_drafts phase = failed_drafts phase ++ pending_drafts phase

-- PodStatusSignals
unfoldable pub pod_status_signals : Pod → List DiagnosticSignal
unfolding phase_drafts containers_drafts number
pod_status_signals p =
    if p.phase == "Succeeded"
    then []
    else number (pod_ref p) 1
        (phase_drafts p.phase ++ containers_drafts (p.phase == "Running") (all_statuses p))

-- FromPod
unfoldable pub from_pod : Pod → Health
unfolding pod_status_signals evaluate
from_pod p = evaluate (pod_status_signals p) none

-- FromNode
unfoldable pub from_node : Node → Health
unfolding node_status_signals evaluate
from_node n = evaluate (node_status_signals n) none
