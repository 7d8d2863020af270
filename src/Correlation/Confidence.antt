-- ===== src/Correlation/Confidence.antt =====
-- internal/correlation/engine.go: what the confidence of a hypothesis says of its evidence.
use kube_sre_mcp.Prelude.{
  String, ◌≡◌, refl, Bool, true, false, ◌&&◌, ◌||◌, ◌↔◌, Option, List, [], ◌∷◌, arith, any, all,
  is_empty,
}
use kube_sre_mcp.Model.{Confidence, Impact}
use kube_sre_mcp.Signal.{DiagnosticSignal, Source, status, condition, log, event, source_eq}
use kube_sre_mcp.Correlation.Build.{
  authoritative, from_status, is_log, contradictions, base_confidence, is_confirmed, lowered, build,
}

-- some status or condition in the evidence shows the cause itself
abbrev pub has_proof : String → List DiagnosticSignal → Bool
has_proof cat ss = any (λ s. from_status s && authoritative cat s) ss

log_or_status :
    (src : Source) → (source_eq src status || source_eq src condition) && source_eq src log ≡ false
log_or_status status = refl
log_or_status condition = refl
log_or_status event = refl
log_or_status log = refl
log_or_status Source.metric = refl
log_or_status Source.dependency = refl
log_or_status Source.scheduler = refl
log_or_status Source.storage = refl
log_or_status Source.network = refl
log_or_status Source.security = refl

-- logs alone prove nothing
logs_prove_nothing :
    (cat : String) (ss : List DiagnosticSignal) → all is_log ss ≡ true → has_proof cat ss ≡ false
logs_prove_nothing cat [] h = refl
logs_prove_nothing cat (s ∷ ss) h =
    ground (arith, log_or_status s.source, logs_prove_nothing cat ss)

base_confirmed :
    (cat : String) (ss : List DiagnosticSignal)
    → is_confirmed (base_confidence cat ss) ≡ has_proof cat ss
unfolding base_confidence
base_confirmed cat ss = ground (arith, logs_prove_nothing cat ss)

only_logs : (src : Source) → source_eq src log ≡ true → src ≡ log
only_logs log h = refl
only_logs status h = cc
only_logs condition h = cc
only_logs event h = cc
only_logs Source.metric h = cc
only_logs Source.dependency h = cc
only_logs Source.scheduler h = cc
only_logs Source.storage h = cc
only_logs Source.network h = cc
only_logs Source.security h = cc

logs_are_no_events :
    (ss : List DiagnosticSignal)
    → all is_log ss ≡ true
    → any (λ s. source_eq s.source event) ss ≡ false
logs_are_no_events [] h = refl
logs_are_no_events (s ∷ ss) h = ground (arith, only_logs s.source, logs_are_no_events ss)

base_low :
    (cat : String) (ss : List DiagnosticSignal)
    → all is_log ss ≡ true
    → base_confidence cat ss ≡ Confidence.low
unfolding base_confidence
base_low cat ss h = ground (arith, logs_prove_nothing cat ss h, logs_are_no_events ss h)

is_confirmed_iff : (c : Confidence) → (is_confirmed c ≡ true) ↔ (c ≡ Confidence.confirmed)
is_confirmed_iff Confidence.confirmed = (λ _. refl, λ _. refl)
is_confirmed_iff Confidence.high = (λ h. cc, λ h. cc)
is_confirmed_iff Confidence.medium = (λ h. cc, λ h. cc)
is_confirmed_iff Confidence.low = (λ h. cc, λ h. cc)
is_confirmed_iff Confidence.unset = (λ h. cc, λ h. cc)

lowered_unconfirmed : (c : Confidence) → is_confirmed (lowered c) ≡ false
lowered_unconfirmed Confidence.confirmed = refl
lowered_unconfirmed Confidence.high = refl
lowered_unconfirmed Confidence.medium = refl
lowered_unconfirmed Confidence.low = refl
lowered_unconfirmed Confidence.unset = refl

-- A hypothesis is confirmed exactly if some status or condition among its signals is authoritative
-- for the category and no signal at all contradicts the category.
pub build_confirmed_iff :
    (cat : String) (ss all_signals : List DiagnosticSignal) (impact : Option Impact)
    → ((build cat ss all_signals impact).confidence ≡ Confidence.confirmed)
      ↔ ((has_proof cat ss ≡ true) × (is_empty (contradictions cat all_signals) ≡ true))
unfolding build
build_confirmed_iff cat ss all_signals impact = (
  λ h. ground (
    arith,
    base_confirmed cat ss,
    is_confirmed_iff (base_confidence cat ss),
    lowered_unconfirmed (base_confidence cat ss),
    is_confirmed_iff (lowered (base_confidence cat ss)),
  ),
  λ h. ground (arith, base_confirmed cat ss, is_confirmed_iff (base_confidence cat ss)),
)

-- Log lines alone give a hypothesis of low confidence, whatever they say.
pub build_logs_low :
    (cat : String) (ss all_signals : List DiagnosticSignal) (impact : Option Impact)
    → all is_log ss ≡ true
    → (build cat ss all_signals impact).confidence ≡ Confidence.low
unfolding build
build_logs_low cat ss all_signals impact h = ground (arith, base_low cat ss h)
