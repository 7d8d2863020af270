-- ===== src/Examples/Diagnoses.antt =====
-- internal/correlation: signals of one pod.
use kube_sre_mcp.Prelude.{
  arith, ◌≡◌, ◌↔◌, refl, true, false, none, [], ◌∷◌, ◌++◌, List, is_empty, any,
}
use kube_sre_mcp.Prelude.Sort.{IsRanked}
use kube_sre_mcp.Prelude.{All}
use kube_sre_mcp.Prelude.Text.{to_lower, to_upper, contains}
use kube_sre_mcp.Model.{Severity, Confidence, ResourceRef}
use kube_sre_mcp.Signal.{DiagnosticSignal, Source, new}
use kube_sre_mcp.Correlation.Classify.{classify, is_image_pull_context}
use kube_sre_mcp.Correlation.Dedup.{dedup_events, dedup_step}
use kube_sre_mcp.Correlation.Build.{build, contradictions}
use kube_sre_mcp.Correlation.Rank.{is_ignored, correlate}
use kube_sre_mcp.Correlation.Confidence.{has_proof, build_confirmed_iff, build_logs_low}
use kube_sre_mcp.Correlation.Ranking.{NotAfter, correlate-IsRanked}
use kube_sre_mcp.Correlation.Counts.{total, others, dedup_keeps}
use kube_sre_mcp.Correlation.Distinct.{Different, dedup-IsDistinct}
use kube_sre_mcp.Correlation.Coverage.{
  explains, IsGrounded, correlate-explains, correlate-IsGrounded,
}

abbrev web_ref : ResourceRef
web_ref = record { api_version = "v1"; kind = "Pod"; namespace = "shop"; name = "web-1"; uid = "u" }

abbrev killed : DiagnosticSignal
killed =
    new "E-1" Source.status "Memory" "OOMKilled" Severity.critical Confidence.confirmed web_ref
      "OOMKilled"

abbrev line : DiagnosticSignal
line =
    new "E-2" Source.log "Container" "oom" Severity.warning Confidence.low web_ref "out of memory"

abbrev mount : DiagnosticSignal
mount =
    new "E-3" Source.event "Storage" "FailedMount" Severity.critical Confidence.high web_ref
      "no volume"

abbrev signals : List DiagnosticSignal
signals = killed ∷ mount ∷ mount ∷ []

build_confirmed_iff_example :
    ((build "OOM_KILLED" (killed ∷ []) signals none).confidence ≡ Confidence.confirmed) ↔ (
      (has_proof "OOM_KILLED" (killed ∷ []) ≡ true)
      × (is_empty (contradictions "OOM_KILLED" signals) ≡ true))
build_confirmed_iff_example = build_confirmed_iff "OOM_KILLED" (killed ∷ []) signals none

build_logs_low_example :
    (build "OOM_KILLED" (line ∷ []) (line ∷ []) none).confidence ≡ Confidence.low
build_logs_low_example =
    build_logs_low "OOM_KILLED" (line ∷ []) (line ∷ []) none (unfold new in refl)

correlate-IsRanked_example : IsRanked NotAfter (correlate signals none)
correlate-IsRanked_example = correlate-IsRanked signals none

correlate-IsGrounded_example : All (IsGrounded (dedup_events signals)) (correlate signals none)
correlate-IsGrounded_example = correlate-IsGrounded signals none

left_killed : dedup_events (killed ∷ []) ≡ [] ++ killed ∷ []
unfolding dedup_events dedup_step new
left_killed = refl

killed_noticed : is_ignored (classify killed) ≡ false
unfolding classify is_image_pull_context new to_lower to_upper contains
killed_noticed = refl

correlate-explains_example : any (explains killed) (correlate (killed ∷ []) none) ≡ true
correlate-explains_example =
    correlate-explains (killed ∷ []) none [] [] killed left_killed killed_noticed

dedup_keeps_example :
    (total (dedup_events signals) ≡ total signals)
    × (others (dedup_events signals) ≡ others signals)
dedup_keeps_example = dedup_keeps signals (unfold new in refl) (unfold total new in omega arith)

dedup-IsDistinct_example : IsRanked Different (dedup_events signals)
dedup-IsDistinct_example = dedup-IsDistinct signals
