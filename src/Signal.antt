-- ===== src/Signal.antt =====
-- internal/signal
use kube_sre_mcp.Prelude.{
  ℕ, String, Bool, true, false, ◌||◌, Option, none, List, [], ◌∷◌, ltb, if◌then◌else◌,
}
use kube_sre_mcp.Prelude.Int.{ℤ, pos}
use kube_sre_mcp.Model.{Health, Confidence, Severity, ResourceRef}

pub data Source : Type 0 where
  status condition event log metric dependency scheduler storage network security : Source

-- Metadata is written and not read
pub record DiagnosticSignal : Type 0 where
  pub id : String
  pub source : Source
  pub category : String
  pub reason : String
  pub severity : Severity
  pub confidence : Confidence
  pub resource : ResourceRef
  pub message : String
  pub timestamp : Option ℕ
  pub count : ℤ

-- New
unfoldable pub new :
    String
    → Source
    → String
    → String
    → Severity
    → Confidence
    → ResourceRef
    → String
    → DiagnosticSignal
new id src category reason sev conf ref msg = record {
  id = id;
  source = src;
  category = category;
  reason = reason;
  severity = sev;
  confidence = conf;
  resource = ref;
  message = msg;
  timestamp = none;
  count = pos 1;
}

abbrev pub source_eq : Source → Source → Bool
source_eq status status = true
source_eq condition condition = true
source_eq event event = true
source_eq log log = true
source_eq metric metric = true
source_eq dependency dependency = true
source_eq scheduler scheduler = true
source_eq storage storage = true
source_eq network network = true
source_eq security security = true
source_eq _ _ = false

-- Score
unfoldable pub score : Confidence → ℕ
score Confidence.confirmed = 4
score Confidence.high = 3
score Confidence.medium = 2
score Confidence.low = 1
score Confidence.unset = 0

-- the loop of MaxConfidence
max_confidence_from : Confidence → List Confidence → Confidence
unfolding score
max_confidence_from best [] = best
max_confidence_from best (c ∷ cs) =
    max_confidence_from (if ltb (score best) (score c) then c else best) cs

unfoldable pub max_confidence : List Confidence → Confidence
unfolding max_confidence_from
max_confidence cs = max_confidence_from Confidence.low cs

-- rank
unfoldable pub rank : Severity → ℕ
rank Severity.critical = 3
rank Severity.warning = 2
rank Severity.info = 1

max_severity_from : Severity → List Severity → Severity
unfolding rank
max_severity_from best [] = best
max_severity_from best (s ∷ ss) =
    max_severity_from (if ltb (rank best) (rank s) then s else best) ss

unfoldable pub max_severity : List Severity → Severity
unfolding max_severity_from
max_severity ss = max_severity_from Severity.info ss

abbrev pub is_critical : Severity → Bool
is_critical Severity.critical = true
is_critical _ = false

abbrev pub is_warning : Severity → Bool
is_warning Severity.warning = true
is_warning _ = false

unfoldable pub health_from_severity : Severity → Bool → Bool → Health
health_from_severity s has_critical unknown =
    if unknown
    then Health.unknown
    else if has_critical || is_critical s
    then Health.critical
    else if is_warning s
    then Health.degraded
    else Health.healthy

-- SourceQuality
unfoldable pub source_quality : Source → ℕ
source_quality status = 4
source_quality condition = 4
source_quality event = 3
source_quality log = 3
source_quality dependency = 3
source_quality scheduler = 2
source_quality storage = 2
source_quality network = 2
source_quality metric = 2
source_quality security = 1
