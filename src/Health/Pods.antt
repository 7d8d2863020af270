-- ===== src/Health/Pods.antt =====
-- internal/health/health.go: which pods are healthy.
use kube_sre_mcp.Prelude.{
  ℕ, String, ◌≡◌, refl, Bool, true, false, not, ◌&&◌, ◌||◌, ◌↔◌, Option, none, some, List, [], ◌∷◌,
  ◌++◌, arith, ap, ◌∙◌, all, is_empty, Bool-cases, inl, inr, ◌==◌, All, All-append,
}
use kube_sre_mcp.Prelude.Int.{ℤ, pos, negsuc, ℤ_eq, ℤ_lt}
use kube_sre_mcp.Model.{Health, Severity, Confidence, ResourceRef}
use kube_sre_mcp.Signal.{is_critical, is_warning, new}
use kube_sre_mcp.Kube.Types.{Terminated, ContainerStatus, Pod}
use kube_sre_mcp.Health.{
  has_critical, has_warning, evaluate, Draft, draft_if, waiting_drafts, terminated_drafts,
  oom_drafts, restart_drafts, readiness_drafts, failed_drafts, pending_drafts, container_drafts,
  containers_drafts, phase_drafts, number, pod_ref, all_statuses, pod_status_signals, from_pod,
}

-- no information: each draft is critical or a warning
abbrev IsBad : Draft → Type 0
IsBad d = is_critical d.severity || is_warning d.severity ≡ true

IsBad-if :
    (test : Bool) (category reason : String) (s : Severity) (c : Confidence) (m : String)
    → is_critical s || is_warning s ≡ true
    → All IsBad (draft_if test category reason s c m)
IsBad-if true category reason s c m h = (h, tt)
IsBad-if false category reason s c m h = tt

waiting-IsBad : (o : Option String) → All IsBad (waiting_drafts o)
waiting-IsBad none = tt
waiting-IsBad (some r) = IsBad-if _ _ _ Severity.critical _ _ refl

terminated-IsBad : (o : Option Terminated) → All IsBad (terminated_drafts o)
terminated-IsBad none = tt
terminated-IsBad (some t) = IsBad-if _ _ _ Severity.critical _ _ refl

oom-IsBad : (o : Option Terminated) → All IsBad (oom_drafts o)
oom-IsBad none = tt
oom-IsBad (some t) = IsBad-if _ _ _ Severity.critical _ _ refl

restart-IsBad : (n : ℤ) → All IsBad (restart_drafts n)
restart-IsBad n = elim (Bool-cases (ℤ_lt (pos 5) n)) [
  | inl e ↦ rw e (refl, tt)
  | inr e ↦ rw e (IsBad-if _ _ _ Severity.warning _ _ refl)
]

container-IsBad : (running : Bool) (cs : ContainerStatus) → All IsBad (container_drafts running cs)
unfolding container_drafts
container-IsBad running cs =
    let ready = readiness_drafts running cs.ready in
    let restarts = restart_drafts cs.restart_count ++ ready in
    let oom = oom_drafts cs.last_terminated ++ restarts in
    All-append IsBad (waiting_drafts cs.waiting) (terminated_drafts cs.terminated ++ oom)
      (waiting-IsBad cs.waiting)
      (All-append IsBad (terminated_drafts cs.terminated) oom (terminated-IsBad cs.terminated) (
        All-append IsBad (oom_drafts cs.last_terminated) restarts (oom-IsBad cs.last_terminated) (
          All-append IsBad (restart_drafts cs.restart_count) ready (restart-IsBad cs.restart_count)
            (IsBad-if (running && not cs.ready) _ _ Severity.warning _ _ refl))))

containers-IsBad :
    (running : Bool) (css : List ContainerStatus) → All IsBad (containers_drafts running css)
unfolding containers_drafts
containers-IsBad running [] = tt
containers-IsBad running (cs ∷ css) =
    All-append IsBad (container_drafts running cs) (containers_drafts running css)
      (container-IsBad running cs) (containers-IsBad running css)

phase-IsBad : (phase : String) → All IsBad (phase_drafts phase)
unfolding phase_drafts
phase-IsBad phase =
    All-append IsBad (failed_drafts phase) (pending_drafts phase)
      (IsBad-if (phase == "Failed") _ _ Severity.critical _ _ refl)
      (IsBad-if (phase == "Pending") _ _ Severity.critical _ _ refl)

number-bad :
    (ref : ResourceRef) (id : ℕ) (ds : List Draft)
    → All IsBad ds
    → has_critical (number ref id ds) || has_warning (number ref id ds) ≡ not (is_empty ds)
unfolding number new
number-bad ref id [] h = refl
number-bad ref id (d ∷ ds) (p, h) = ground arith

-- what a healthy container is
abbrev no_reason : Option String → Bool
no_reason none = true
no_reason (some r) = r == ""

abbrev no_failure : Option Terminated → Bool
no_failure none = true
no_failure (some t) = ℤ_eq t.exit_code (pos 0)

abbrev no_oom : Option Terminated → Bool
no_oom none = true
no_oom (some t) = not (t.reason == "OOMKilled")

-- not waiting for a reason, not failed, not killed for its memory, not restarted, and ready if the
-- pod runs
abbrev pub is_clean : Bool → ContainerStatus → Bool
is_clean running cs =
    no_reason cs.waiting
    && no_failure cs.terminated
    && no_oom cs.last_terminated
    && not (ℤ_lt (pos 0) cs.restart_count)
    && (not running || cs.ready)

empty-append : (xs ys : List Draft) → is_empty (xs ++ ys) ≡ is_empty xs && is_empty ys
empty-append [] ys = refl
empty-append (x ∷ xs) ys = refl

empty_if :
    (test : Bool) (category reason : String) (s : Severity) (c : Confidence) (m : String)
    → is_empty (draft_if test category reason s c m) ≡ not test
empty_if true category reason s c m = refl
empty_if false category reason s c m = refl

waiting-empty : (o : Option String) → is_empty (waiting_drafts o) ≡ no_reason o
waiting-empty none = refl
waiting-empty (some r) = ground arith

terminated-empty : (o : Option Terminated) → is_empty (terminated_drafts o) ≡ no_failure o
terminated-empty none = refl
terminated-empty (some t) = ground arith

oom-empty : (o : Option Terminated) → is_empty (oom_drafts o) ≡ no_oom o
oom-empty none = refl
oom-empty (some t) = ground arith

restart-empty : (n : ℤ) → is_empty (restart_drafts n) ≡ not (ℤ_lt (pos 0) n)
restart-empty n = ground (arith, five n)
  where
    five : (n : ℤ) → ℤ_lt (pos 5) n ≡ true → ℤ_lt (pos 0) n ≡ true
    five (pos n) h = ground arith
    five (negsuc n) h = cc

container-empty :
    (running : Bool) (cs : ContainerStatus)
    → is_empty (container_drafts running cs) ≡ is_clean running cs
unfolding container_drafts
container-empty running cs =
    let ready = readiness_drafts running cs.ready in
    let restarts = restart_drafts cs.restart_count ++ ready in
    let oom = oom_drafts cs.last_terminated ++ restarts in
    let waiting = waiting_drafts cs.waiting in
    let failed = terminated_drafts cs.terminated in
    ground (
      arith,
      empty-append waiting (failed ++ oom),
      empty-append failed oom,
      empty-append (oom_drafts cs.last_terminated) restarts,
      empty-append (restart_drafts cs.restart_count) ready,
      waiting-empty cs.waiting,
      terminated-empty cs.terminated,
      oom-empty cs.last_terminated,
      restart-empty cs.restart_count,
    )

containers-empty :
    (running : Bool) (css : List ContainerStatus)
    → is_empty (containers_drafts running css) ≡ all (is_clean running) css
unfolding containers_drafts
containers-empty running [] = refl
containers-empty running (cs ∷ css) =
    empty-append (container_drafts running cs) (containers_drafts running css)
    ∙ ap (λ b. b && is_empty (containers_drafts running css)) (container-empty running cs)
    ∙ ap (λ b. is_clean running cs && b) (containers-empty running css)

-- the phase tells of no failure
abbrev pub phase_ok : String → Bool
phase_ok phase = not (phase == "Failed") && not (phase == "Pending")

phase-empty : (phase : String) → is_empty (phase_drafts phase) ≡ phase_ok phase
unfolding phase_drafts
phase-empty phase = ground arith

-- A pod is healthy exactly if it succeeded, or has neither failed nor is pending and each of its
-- containers, the init containers too, is clean: not waiting for a reason, not ended with an error,
-- not killed for its memory before, not restarted, and ready if the pod runs.
pub from_pod_healthy_iff :
    (p : Pod)
    → (from_pod p ≡ Health.healthy) ↔ (
        p.phase == "Succeeded"
          || (phase_ok p.phase && all (is_clean (p.phase == "Running")) (all_statuses p))
        ≡ true)
unfolding from_pod pod_status_signals evaluate
from_pod_healthy_iff p =
    let a = phase_drafts p.phase in
    let b = containers_drafts (p.phase == "Running") (all_statuses p) in
    let bad =
      number-bad (pod_ref p) 1 (a ++ b)
        (All-append IsBad a b (phase-IsBad p.phase) (containers-IsBad _ (all_statuses p))) in
    let e = empty-append a b in
    let k = phase-empty p.phase in
    let c = containers-empty (p.phase == "Running") (all_statuses p) in
    (λ h. ground (arith, bad, e, k, c), λ h. ground (arith, bad, e, k, c))
