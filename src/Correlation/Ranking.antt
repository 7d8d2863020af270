-- ===== src/Correlation/Ranking.antt =====
-- internal/correlation/engine.go: the order of the hypotheses that Correlate returns.
use kube_sre_mcp.Prelude.{ℕ, ◌<◌, ◌≡◌, refl, true, false, ◌⊎◌, inl, inr, Option, List, arith}
use kube_sre_mcp.Prelude.Int.{ℤ, pos, negsuc, ℤ_eq, ℤ_lt, ℤ_eq_iff}
use kube_sre_mcp.Prelude.Sort.{IsRanked, stable_sort-IsRanked}
use kube_sre_mcp.Model.{Impact, RootCauseHypothesis}
use kube_sre_mcp.Signal.{DiagnosticSignal, score}
use kube_sre_mcp.Correlation.Rank.{weighted_score, ranks_before, hypotheses, correlate}
use kube_sre_mcp.Correlation.Dedup.{dedup_events}

-- more confident, or as confident and of no smaller weighted score
abbrev pub NotAfter : RootCauseHypothesis → RootCauseHypothesis → Type 0
NotAfter a b =
    (score b.confidence < score a.confidence)
    ⊎ ((score a.confidence ≡ score b.confidence)
        × (ℤ_lt (weighted_score a) (weighted_score b) ≡ false))

ℤ_le_trans : (a b c : ℤ) → ℤ_lt a b ≡ false → ℤ_lt b c ≡ false → ℤ_lt a c ≡ false
ℤ_le_trans (pos a) (pos b) (pos c) h k = ground arith
ℤ_le_trans (pos a) (pos b) (negsuc c) h k = refl
ℤ_le_trans (pos a) (negsuc b) (pos c) h k = cc
ℤ_le_trans (pos a) (negsuc b) (negsuc c) h k = refl
ℤ_le_trans (negsuc a) (pos b) (pos c) h k = cc
ℤ_le_trans (negsuc a) (pos b) (negsuc c) h k = cc
ℤ_le_trans (negsuc a) (negsuc b) (pos c) h k = cc
ℤ_le_trans (negsuc a) (negsuc b) (negsuc c) h k = ground arith

ℤ_lt_asym : (a b : ℤ) → ℤ_lt a b ≡ true → ℤ_lt b a ≡ false
ℤ_lt_asym (pos a) (pos b) h = ground arith
ℤ_lt_asym (pos a) (negsuc b) h = cc
ℤ_lt_asym (negsuc a) (pos b) h = refl
ℤ_lt_asym (negsuc a) (negsuc b) h = ground arith

ℤ_lt_irrefl : (a b : ℤ) → ℤ_eq a b ≡ true → ℤ_lt a b ≡ false
ℤ_lt_irrefl (pos a) (pos b) h = ground arith
ℤ_lt_irrefl (pos a) (negsuc b) h = cc
ℤ_lt_irrefl (negsuc a) (pos b) h = cc
ℤ_lt_irrefl (negsuc a) (negsuc b) h = ground arith

NotAfter-trans : (a b c : RootCauseHypothesis) → NotAfter a b → NotAfter b c → NotAfter a c
NotAfter-trans a b c (inl h) (inl k) = inl (omega arith)
NotAfter-trans a b c (inl h) (inr (k, m)) = inl (omega arith)
NotAfter-trans a b c (inr (h, l)) (inl k) = inl (omega arith)
NotAfter-trans a b c (inr (h, l)) (inr (k, m)) =
    inr (omega arith, ℤ_le_trans (weighted_score a) (weighted_score b) (weighted_score c) l m)

-- the comparison of two scores, decided
score-cases : (m n : ℕ) → (m < n) ⊎ ((m ≡ n) ⊎ (n < m))
score-cases m n = ground arith

ranks_before-NotAfter : (a b : RootCauseHypothesis) → ranks_before a b ≡ true → NotAfter a b
unfolding ranks_before
ranks_before-NotAfter a b h = ground (
  arith,
  score-cases (score a.confidence) (score b.confidence),
  ℤ_lt_irrefl (weighted_score a) (weighted_score b),
  ℤ_lt_asym (weighted_score b) (weighted_score a),
)

not_before-NotAfter : (a b : RootCauseHypothesis) → ranks_before a b ≡ false → NotAfter b a
unfolding ranks_before
not_before-NotAfter a b h = ground (
  arith,
  score-cases (score a.confidence) (score b.confidence),
  ℤ_eq_iff (weighted_score a) (weighted_score b),
  ℤ_lt_irrefl (weighted_score b) (weighted_score a),
  ℤ_lt_irrefl (weighted_score a) (weighted_score b),
)

-- Correlate returns its hypotheses ranked: each is more confident than all that follow it, or as
-- confident and of no smaller weighted score.
pub correlate-IsRanked :
    (signals : List DiagnosticSignal) (impact : Option Impact)
    → IsRanked NotAfter (correlate signals impact)
unfolding correlate
correlate-IsRanked signals impact =
    stable_sort-IsRanked NotAfter NotAfter-trans ranks_before ranks_before-NotAfter
      not_before-NotAfter (hypotheses (dedup_events signals) impact)
