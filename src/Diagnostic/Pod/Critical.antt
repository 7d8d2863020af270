-- ===== src/Diagnostic/Pod/Critical.antt =====
-- internal/diagnostic/pod.go: the health of a pod whose dependencies are not there.
use kube_sre_mcp.Prelude.{
  ℕ, ◌+◌, length, String, true, ◌||◌, not, Option, List, [], ◌∷◌, ◌++◌, ◌≡◌, refl, ap, ◌∙◌,
  is_empty, Bool-cases, inl, inr, arith,
}
use kube_sre_mcp.Model.{Health, ResourceRef, Visibility}
use kube_sre_mcp.Signal.{DiagnosticSignal}
use kube_sre_mcp.Health.{evaluate, has_critical}
use kube_sre_mcp.Kube.Spec.{PodObject}
use kube_sre_mcp.Graph.Owners.{pod_ref}
use kube_sre_mcp.Diagnostic.Dependencies.{
  PodInput, Faults, dependency_signals, pod_faults, dep_signals,
}
use kube_sre_mcp.Diagnostic.Dependencies.Result.{HasDependencies, dep_signals_iff}
use kube_sre_mcp.Diagnostic.Assemble.{assemble}
use kube_sre_mcp.Diagnostic.Pod.Diagnose.{
  PodContext, signals_before, signals_after, pod_signals, diagnose_pod,
}

has_critical-append :
    (xs ys : List DiagnosticSignal) → has_critical (xs ++ ys) ≡ (has_critical xs || has_critical ys)
has_critical-append [] ys = refl
has_critical-append (x ∷ xs) ys = ground (arith, has_critical-append xs ys)

-- a fault makes a critical signal
fault_critical :
    (ref : ResourceRef) (id : ℕ) (faults : Faults)
    → has_critical (dependency_signals ref id faults)
      ≡ not (is_empty (dependency_signals ref id faults))
unfolding dependency_signals
fault_critical ref id [] = refl
fault_critical ref id ((reason, msg) ∷ faults) = refl

critical_health :
    (sigs : List DiagnosticSignal) (vis : Option Visibility)
    → has_critical sigs ≡ true
    → evaluate sigs vis ≡ Health.critical
unfolding evaluate
critical_health sigs vis h = ground (arith, h)

-- what is missing shows among the signals
among_others :
    (before deps after : List DiagnosticSignal)
    → has_critical deps ≡ true
    → has_critical (before ++ (deps ++ after)) ≡ true
among_others before deps after h =
    ground (arith, has_critical-append before (deps ++ after), has_critical-append deps after)

missing_critical :
    (input : PodInput) (p : PodObject) (ref : ResourceRef) (id : ℕ)
    → (HasDependencies input p.spec → ⊥)
    → has_critical (dep_signals input p.spec ref id) ≡ true
unfolding dep_signals
missing_critical input p ref id missing =
    elim (Bool-cases (is_empty (dep_signals input p.spec ref id))) [
      | inl e ↦ absurd (missing ((dep_signals_iff input p.spec ref id).0 e))
      | inr e ↦ fault_critical ref id (pod_faults input p.spec) ∙ ap not e
    ]

-- DiagnosePod finds a pod critical where a ConfigMap, Secret or claim that its containers or its
-- ConfigMap, Secret and claim volumes name, its service account or a pull secret is known not to be
-- there or not fit, whatever else its status, its node, its events and its logs say; the sources of
-- projected volumes are not among these.
pub diagnose_pod-critical :
    (redact : String → String) (p : PodObject) (input : PodInput) (ctx : PodContext)
    → (HasDependencies input p.spec → ⊥)
    → (diagnose_pod redact p input ctx).response.health ≡ Health.critical
unfolding diagnose_pod assemble pod_signals
diagnose_pod-critical redact p input ctx missing =
    let before = signals_before redact p ctx in
    critical_health (pod_signals redact p input ctx).0 ctx.visibility (
      among_others before.0 (dep_signals input p.spec (pod_ref p.meta) before.2)
        (signals_after p ctx (before.2 + length (pod_faults input p.spec)))
        (missing_critical input p (pod_ref p.meta) before.2 missing))
