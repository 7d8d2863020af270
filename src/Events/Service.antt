-- ===== src/Events/Service.antt =====
-- internal/events/service.go: the events of an object. A time is a number of nanoseconds, 0 for the
-- zero time; security.Redact and the order that sort.Slice gives to equal times are parameters.
use Prim.Native.String
use kube_sre_mcp.Prelude.{
  ℕ, suc, String, Bool, true, false, not, ◌&&◌, ◌||◌, some, List, [], ◌∷◌, ◌++◌, map, ◌==◌, eqb,
  ltb, take, if◌then◌else◌,
}
use kube_sre_mcp.Prelude.Int.{ℤ, pos, ℤ_eq}
use kube_sre_mcp.Prelude.Int32.{add_int32}
use kube_sre_mcp.Prelude.Text.{join, decimal, equal_fold}
use kube_sre_mcp.Message.{Message}
use kube_sre_mcp.Model.{ResourceRef, Severity, Confidence}
use kube_sre_mcp.Signal.{DiagnosticSignal, Source, new}
use kube_sre_mcp.Events.Analyzer.{classify_event}
use kube_sre_mcp.Action.Store.{Fallible, ok, err}

-- the fields of corev1.Event that are read
pub record Event : Type 0 where
  pub type : String
  pub reason : String
  pub message : String
  pub count : ℤ
  pub namespace : String
  pub first_timestamp : ℕ
  pub last_timestamp : ℕ
  pub event_time : ℕ
  pub creation_timestamp : ℕ
  pub involved_kind : String
  pub involved_name : String

pub record Record : Type 0 where
  pub type : String
  pub reason : String
  pub message : String
  pub count : ℤ
  pub first_time : ℕ
  pub last_time : ℕ
  pub involved_object : String
  pub namespace : String
  pub category : String
  pub severity : String
  pub explanation : String
  pub remediation : String

abbrev pub is_zero : ℕ → Bool
is_zero t = eqb t 0

-- timeOr
unfoldable pub time_or : ℕ → ℕ → ℕ
time_or a b = if not (is_zero a) then a else b

-- FromK8s
unfoldable pub from_k8s : (String → String) → Event → Record
unfolding time_or classify_event
from_k8s redact e =
    let last = time_or e.last_timestamp e.event_time in
    let msg = redact e.message in
    let c = classify_event e.reason msg in
    record {
      type = e.type;
      reason = e.reason;
      message = msg;
      count = if ℤ_eq e.count (pos 0) then pos 1 else e.count;
      first_time = time_or e.first_timestamp e.event_time;
      last_time = if is_zero last then e.creation_timestamp else last;
      involved_object = String.◌++◌ e.involved_kind (String.◌++◌ "/" e.involved_name);
      namespace = e.namespace;
      category = c.category;
      severity = c.severity;
      explanation = c.explanation;
      remediation = c.hint;
    }

-- the keys of two records are equal
unfoldable pub same_record : Record → Record → Bool
same_record a b =
    a.involved_object == b.involved_object && a.reason == b.reason && a.message == b.message

abbrev later : ℕ → ℕ → ℕ
later a b = if ltb a b then b else a

abbrev earlier : ℕ → ℕ → ℕ
earlier a b = if not (is_zero b) && (is_zero a || ltb b a) then b else a

-- what the loop does to the record that has the key already
abbrev pub merge : Record → Record → Record
merge o r = record o {
  count = add_int32 o.count r.count;
  last_time = later o.last_time r.last_time;
  first_time = earlier o.first_time r.first_time;
}

unfoldable pub is_seen : Record → List Record → Bool
unfolding same_record
is_seen r [] = false
is_seen r (o ∷ os) = let rest = is_seen r os in if same_record o r then true else rest

unfoldable pub merge_into : Record → List Record → List Record
unfolding same_record
merge_into r [] = []
merge_into r (o ∷ os) =
    let rest = merge_into r os in if same_record o r then merge o r ∷ os else o ∷ rest

-- one round of the loop of Aggregate
unfoldable pub aggregate_step : List Record → Record → List Record
aggregate_step out r = if is_seen r out then merge_into r out else out ++ r ∷ []

unfoldable pub aggregate_from : List Record → List Record → List Record
aggregate_from out [] = out
aggregate_from out (r ∷ rs) = aggregate_from (aggregate_step out r) rs

-- Aggregate
unfoldable pub aggregate : List Record → List Record
unfolding aggregate_from
aggregate rs = aggregate_from [] rs

-- fieldSelector
unfoldable pub field_selector : String → String → String
field_selector name kind = join "," (
    (if name == "" then [] else String.◌++◌ "involvedObject.name=" name ∷ [])
    ++ (if kind == "" then [] else String.◌++◌ "involvedObject.kind=" kind ∷ []))

-- the namespace that is listed, "" for all
unfoldable pub listed_namespace : String → String → Bool → String
listed_namespace namespace kind all_namespaces =
    if all_namespaces || (namespace == "" && equal_fold kind "Node")
    then ""
    else if namespace == ""
    then "default"
    else namespace

-- Service.List, over the API's answer for a namespace and a field selector
unfoldable pub list_events :
    (String → String)
    → (List Record → List Record)
    → (String → String → Fallible Message (List Event))
    → String
    → String
    → String
    → Bool
    → ℤ
    → Fallible Message (List Record)
unfolding field_selector listed_namespace aggregate from_k8s
list_events redact latest_first events namespace name kind all_namespaces limit =
    elim (events (listed_namespace namespace kind all_namespaces) (field_selector name kind)) [
      | err e ↦ err e
      | ok items ↦
          ok (aggregate (take (limit_of limit) (latest_first (map (from_k8s redact) items))))
    ]
  where
    limit_of : ℤ → ℕ
    limit_of (pos (suc n)) = suc n
    limit_of _ = 30

-- the record makes no signal
abbrev pub is_routine : Record → Bool
is_routine r = not (r.type == "Warning") && r.severity == "info"

-- the loop of ToSignals, at index `i`
signals_from : ResourceRef → ℕ → List Record → List DiagnosticSignal
signals_from ref i [] = []
signals_from ref i (r ∷ rs) =
    let rest = signals_from ref (suc i) rs in
    if is_routine r
    then rest
    else record (new (String.◌++◌ "E-EVT-" (decimal (suc i))) Source.event r.category r.reason
        (if r.severity == "critical" then Severity.critical else Severity.warning) Confidence.high
        ref (String.◌++◌ "[" (String.◌++◌ r.reason (String.◌++◌ "] " r.message)))) {
          count = r.count;
          timestamp = some r.last_time;
        }
      ∷ rest

-- ToSignals
unfoldable pub to_signals : ResourceRef → List Record → List DiagnosticSignal
unfolding signals_from
to_signals ref rs = signals_from ref 0 rs
