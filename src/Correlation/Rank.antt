-- ===== src/Correlation/Rank.antt =====
-- internal/correlation/engine.go: Correlate.
use kube_sre_mcp.Prelude.{
  ℕ, ◌+◌, ◌*◌, String, Bool, not, ◌||◌, Option, List, [], ◌∷◌, map, ◌==◌, eqb, ltb, any,
  first_match, if◌then◌else◌,
}
use kube_sre_mcp.Prelude.Int.{ℤ, pos, ◌+ℤ◌, ℤ_eq, ℤ_lt}
use kube_sre_mcp.Prelude.Text.{text_lt}
use kube_sre_mcp.Prelude.Sort.{stable_sort}
use kube_sre_mcp.Model.{Impact, RootCauseHypothesis}
use kube_sre_mcp.Signal.{DiagnosticSignal, score}
use kube_sre_mcp.Correlation.Classify.{classify}
use kube_sre_mcp.Correlation.Dedup.{dedup_events}
use kube_sre_mcp.Correlation.Build.{build}

category_bonus : String → ℕ
category_bonus c =
    first_match
      ((c == "OOM_KILLED" || c == "MISSING_SECRET" || c == "MISSING_CONFIGMAP", 80)
        ∷ (c == "REGISTRY_AUTHENTICATION_FAILURE", 70)
        ∷ (
          c == "INSUFFICIENT_CPU"
              || c == "INSUFFICIENT_MEMORY"
              || c == "TAINT_NOT_TOLERATED"
              || c == "NODE_SELECTOR_MISMATCH",
          60,
        )
        ∷ (
          c == "SERVICE_NO_MATCHING_PODS"
              || c == "PROGRESS_DEADLINE_EXCEEDED"
              || c == "READINESS_PROBE_FAILED",
          50,
        )
        ∷ (c == "CRASH_LOOP" || c == "IMAGE_PULL_FAILURE", 20)
        ∷ (c == "APPLICATION_AUTH_FAILURE", 15)
        ∷ [])
      0

-- weightedScore
unfoldable pub weighted_score : RootCauseHypothesis → ℤ
unfolding category_bonus score
weighted_score h = h.affected_replicas +ℤ pos (score h.confidence * 10 + category_bonus h.category)

-- the comparison of the last sort in Correlate
unfoldable pub ranks_before : RootCauseHypothesis → RootCauseHypothesis → Bool
unfolding score
ranks_before a b =
    if not (eqb (score a.confidence) (score b.confidence))
    then ltb (score b.confidence) (score a.confidence)
    else if not (ℤ_eq (weighted_score a) (weighted_score b))
    then ℤ_lt (weighted_score b) (weighted_score a)
    else if not (a.category == b.category)
    then text_lt a.category b.category
    else text_lt a.title b.title

-- the test that keeps a signal out of the buckets
abbrev pub is_ignored : String → Bool
is_ignored cat = cat == "healthy" || cat == "noise"

-- the keys of the buckets, each once
unfoldable pub categories : List DiagnosticSignal → List String
unfolding classify
categories [] = []
categories (s ∷ ss) =
    let rest = categories ss in
    if is_ignored (classify s) || any (λ c. c == classify s) rest then rest else classify s ∷ rest

-- one bucket, in the order of the signals
unfoldable pub bucket : String → List DiagnosticSignal → List DiagnosticSignal
unfolding classify
bucket cat [] = []
bucket cat (s ∷ ss) = let rest = bucket cat ss in if classify s == cat then s ∷ rest else rest

-- what the loop over the sorted categories builds
unfoldable pub hypotheses : List DiagnosticSignal → Option Impact → List RootCauseHypothesis
unfolding categories bucket build stable_sort text_lt
hypotheses deduped impact =
    let cats = stable_sort text_lt (categories deduped) in
    map (λ cat. build cat (bucket cat deduped) deduped impact) cats

-- Correlate
unfoldable pub correlate : List DiagnosticSignal → Option Impact → List RootCauseHypothesis
unfolding hypotheses dedup_events ranks_before stable_sort
correlate signals impact = stable_sort ranks_before (hypotheses (dedup_events signals) impact)
