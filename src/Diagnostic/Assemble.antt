-- ===== src/Diagnostic/Assemble.antt =====
-- internal/diagnostic/assemble.go and response.go, demoteConfirmed of engine.go, and ToEvidence of
-- internal/signal/signal.go. The cluster's description is passed through and left out; so are
-- the fields of a response that these functions leave at their zero values.
use Prim.Native.String
use kube_sre_mcp.Prelude.{
  String, Bool, true, false, ◌||◌, Option, none, some, List, [], ◌∷◌, ◌++◌, ◌==◌, map, any,
  is_empty, if◌then◌else◌,
}
use kube_sre_mcp.Prelude.Sort.{stable_sort}
use kube_sre_mcp.Prelude.Text.{text_lt, contains}
use kube_sre_mcp.Model.{
  Health, Severity, Confidence, ImpactSeverity, ResourceRef, ref_string, Finding, Evidence,
  RecommendedAction, Impact, RootCauseHypothesis, Visibility,
}
use kube_sre_mcp.Signal.{DiagnosticSignal, Source}
use kube_sre_mcp.Health.{evaluate, limited, health_eq}
use kube_sre_mcp.Correlation.Rank.{correlate}
use kube_sre_mcp.Recommendation.{advice_for}

pub record DiagnosticResponse : Type 0 where
  pub status : String
  pub target : ResourceRef
  pub health : Health
  pub summary : String
  pub impact : Option Impact
  pub root_cause : Option RootCauseHypothesis
  pub root_causes : List RootCauseHypothesis
  pub findings : List Finding
  pub evidence : List Evidence
  pub recommendations : List RecommendedAction
  pub visibility : Option Visibility
  pub depth : String

unfoldable pub health_text : Health → String
health_text Health.healthy = "healthy"
health_text Health.degraded = "degraded"
health_text Health.critical = "critical"
health_text Health.unknown = "unknown"

unfoldable pub source_text : Source → String
source_text Source.status = "STATUS"
source_text Source.condition = "CONDITION"
source_text Source.event = "EVENT"
source_text Source.log = "LOG"
source_text Source.metric = "METRIC"
source_text Source.dependency = "DEPENDENCY"
source_text Source.scheduler = "SCHEDULER"
source_text Source.storage = "STORAGE"
source_text Source.network = "NETWORK"
source_text Source.security = "SECURITY"

-- ToEvidence
unfoldable pub to_evidence : DiagnosticSignal → Evidence
unfolding source_text
to_evidence s = record {
  id = s.id;
  source = source_text s.source;
  message = s.message;
  resource = s.resource;
  timestamp = s.timestamp;
}

-- mapID of scopeIDs
unfoldable pub map_id : ResourceRef → String → String
unfolding ref_string contains
map_id target id =
    if id == "" || contains id ":" then id else String.◌++◌ (String.◌++◌ (ref_string target) ":") id

-- scopeIDs, of the signals and of the hypotheses
unfoldable pub scope_signals : ResourceRef → List DiagnosticSignal → List DiagnosticSignal
unfolding map_id
scope_signals target sigs =
    map {A = DiagnosticSignal} (λ s. record s { id = map_id target s.id }) sigs

unfoldable pub scope_hypotheses : ResourceRef → List RootCauseHypothesis → List RootCauseHypothesis
unfolding map_id
scope_hypotheses target hyps =
    map {A = RootCauseHypothesis}
      (λ h. record h {
        supporting_evidence_ids = map (map_id target) h.supporting_evidence_ids;
        contradicting_evidence_ids = map (map_id target) h.contradicting_evidence_ids;
      })
      hyps

abbrev is_info : Severity → Bool
is_info Severity.info = true
is_info _ = false

unfoldable pub findings_of : List DiagnosticSignal → List Finding
findings_of [] = []
findings_of (s ∷ sigs) =
    let rest = findings_of sigs in
    if is_info s.severity
    then rest
    else record { severity = s.severity; reason = s.reason; container = ""; message = s.message }
      ∷ rest

-- impactFrom
unfoldable pub impact_from : ResourceRef → Health → Impact
unfolding health_text
impact_from t h = record {
  severity = elim h [
    | Health.critical ↦ ImpactSeverity.critical
    | Health.degraded ↦ ImpactSeverity.high
    | _ ↦ ImpactSeverity.low
  ];
  summary = String.◌++◌ (health_text h) (String.◌++◌ " " t.kind);
}

-- summaryFrom
unfoldable pub summary_from : ResourceRef → Health → List RootCauseHypothesis → String
unfolding health_text
summary_from t h hyps =
    let object = String.◌++◌ t.kind (String.◌++◌ " " t.name) in
    if health_eq h Health.healthy
    then String.◌++◌ object " appears healthy."
    else String.◌++◌ object (String.◌++◌ " is " (String.◌++◌ (health_text h) (cause hyps)))
  where
    cause : List RootCauseHypothesis → String
    cause [] = "."
    cause (rc ∷ _) = String.◌++◌ ": " rc.category

-- the inner loops of recsFrom, over the recommendations of all hypotheses
unfoldable pub new_actions : List String → List RecommendedAction → List RecommendedAction
new_actions seen [] = []
new_actions seen (r ∷ rs) =
    let skipped = new_actions seen rs in
    let rest = new_actions (r.action ∷ seen) rs in
    if any (λ a. a == r.action) seen then skipped else r ∷ rest

unfoldable pub all_advice : List RootCauseHypothesis → List RecommendedAction
all_advice [] = []
all_advice (h ∷ hyps) = h.recommendations ++ all_advice hyps

-- recsFrom
unfoldable pub recs_from : List RootCauseHypothesis → List RecommendedAction
unfolding new_actions all_advice advice_for
recs_from hyps =
    let out = new_actions [] (all_advice hyps) in
    if is_empty hyps then [] else if is_empty out then advice_for "" else out

abbrev pub first_cause : List RootCauseHypothesis → Option RootCauseHypothesis
first_cause [] = none
first_cause (rc ∷ _) = some rc

-- assemble
unfoldable pub assemble :
    ResourceRef → List DiagnosticSignal → Option Visibility → String → DiagnosticResponse
unfolding evaluate impact_from correlate scope_signals scope_hypotheses findings_of to_evidence
    stable_sort text_lt summary_from recs_from
assemble target sigs vis depth =
    let h = evaluate sigs vis in
    let impact = impact_from target h in
    let hyps = scope_hypotheses target (correlate sigs (some impact)) in
    let scoped = scope_signals target sigs in
    record {
      status = if limited vis then "partial" else "success";
      target = target;
      health = h;
      summary = summary_from target h hyps;
      impact = some impact;
      root_cause = if health_eq h Health.healthy then none else first_cause hyps;
      root_causes = hyps;
      findings =
          stable_sort
            (λ a b.
              if a.reason == b.reason
              then text_lt a.message b.message
              else text_lt a.reason b.reason)
            (findings_of scoped);
      evidence =
          stable_sort
            (λ a b. if a.id == b.id then text_lt a.message b.message else text_lt a.id b.id)
            (map to_evidence scoped);
      recommendations = recs_from hyps;
      visibility = vis;
      depth = depth;
    }

-- the change of demoteConfirmed to one hypothesis
unfoldable pub demote : RootCauseHypothesis → RootCauseHypothesis
demote h = record h {
  confidence = elim h.confidence [ Confidence.confirmed ↦ Confidence.high | c ↦ c ];
}

-- demoteConfirmed
unfoldable pub demote_confirmed : DiagnosticResponse → DiagnosticResponse
unfolding demote
demote_confirmed resp = record resp {
  root_cause = elim resp.root_cause [ none ↦ none | some rc ↦ some (demote rc) ];
  root_causes = map demote resp.root_causes;
}
