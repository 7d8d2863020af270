-- ===== src/Correlation/Build.antt =====
-- internal/correlation/engine.go: the hypothesis for one category.
use kube_sre_mcp.Prelude.{
  String, Bool, true, false, not, ◌&&◌, ◌||◌, Option, List, [], ◌∷◌, ◌++◌, map, ◌==◌, first_match,
  if◌then◌else◌, length, all, any, is_empty, take,
}
use Prim.Native.Char.{char}
use Prim.Native.String
use kube_sre_mcp.Prelude.Int.{pos}
use kube_sre_mcp.Prelude.Text.{to_lower, to_upper, contains, text_lt, join, replace_char}
use kube_sre_mcp.Prelude.Sort.{stable_sort}
use kube_sre_mcp.Model.{Confidence, Severity, ResourceRef, ref_string, Impact, RootCauseHypothesis}
use kube_sre_mcp.Signal.{DiagnosticSignal, Source, status, condition, log, event, source_eq}
use kube_sre_mcp.Recommendation.{advice_for}

-- the text of a signal without its category
abbrev pub short_blob : DiagnosticSignal → String
short_blob s = to_lower (String.◌++◌ s.reason (String.◌++◌ " " s.message))

abbrev pub from_status : DiagnosticSignal → Bool
from_status s = source_eq s.source status || source_eq s.source condition

-- authoritative
unfoldable pub authoritative : String → DiagnosticSignal → Bool
authoritative cat s =
    let r = short_blob s in
    if not (from_status s)
    then false
    else first_match
        ((cat == "OOM_KILLED", contains r "oomkill")
          ∷ (
            cat == "IMAGE_PULL_FAILURE"
                || cat == "REGISTRY_AUTHENTICATION_FAILURE"
                || cat == "IMAGE_NOT_FOUND",
            contains r "imagepull" || contains r "errimagepull",
          )
          ∷ (cat == "PVC_PENDING", contains r "pvc" || contains r "pending")
          ∷ (
            cat == "NODE_NOT_READY",
            (contains r "ready" && contains r "false")
                || s.reason == "Ready"
                || s.reason == "NodeReady",
          )
          ∷ (cat == "CRASH_LOOP", contains r "crashloop")
          ∷ (
            cat == "READINESS_PROBE_FAILED"
                || cat == "LIVENESS_PROBE_FAILED"
                || cat == "STARTUP_PROBE_FAILED",
            contains (to_upper s.reason) "PROBE",
          )
          ∷ [])
        false

abbrev is_info : Severity → Bool
is_info Severity.info = true
is_info _ = false

-- how often the loop of contradictions appends the signal's ID
abbrev contradiction_ids : String → DiagnosticSignal → List String
contradiction_ids cat s =
    let r = short_blob s in
    first_match
      ((
        cat == "CRASH_LOOP",
        (if source_eq s.source status && contains r "appears healthy" then s.id ∷ [] else [])
            ++ (if source_eq s.source condition && contains r "ready=true" then s.id ∷ [] else []),
      )
        ∷ (
          cat == "READINESS_PROBE_FAILED",
          if contains r "container"
                && contains r "ready"
                && not (contains r "not ready")
                && is_info s.severity
              then s.id ∷ []
              else [],
        )
        ∷ [])
      []

contradictions_of : String → List DiagnosticSignal → List String
contradictions_of cat [] = []
contradictions_of cat (s ∷ ss) = contradiction_ids cat s ++ contradictions_of cat ss

-- uniqueStrings: what is empty or was seen before is left out
unique_from : List String → List String → List String
unique_from seen [] = []
unique_from seen (s ∷ ss) =
    let skip = unique_from seen ss in
    let keep = s ∷ unique_from (s ∷ seen) ss in
    if s == "" || any (λ t. t == s) seen then skip else keep

unfoldable pub unique_strings : List String → List String
unfolding unique_from
unique_strings ss = unique_from [] ss

unfoldable pub contradictions : String → List DiagnosticSignal → List String
unfolding contradictions_of unique_strings stable_sort text_lt
contradictions cat all = unique_strings (stable_sort text_lt (contradictions_of cat all))

-- uniqueRefs: the first reference of each text, in the order of the texts
first_refs : List String → List ResourceRef → List ResourceRef
first_refs seen [] = []
first_refs seen (r ∷ rs) =
    let skip = first_refs seen rs in
    let keep = r ∷ first_refs (ref_string r ∷ seen) rs in
    if any (λ t. t == ref_string r) seen then skip else keep

unfoldable pub unique_refs : List ResourceRef → List ResourceRef
unfolding first_refs stable_sort text_lt ref_string
unique_refs rs = stable_sort (λ a b. text_lt (ref_string a) (ref_string b)) (first_refs [] rs)

abbrev pub is_log : DiagnosticSignal → Bool
is_log s = source_eq s.source log

abbrev has_source : Source → List DiagnosticSignal → Bool
has_source src = any (λ s. source_eq s.source src)

abbrev pub is_confirmed : Confidence → Bool
is_confirmed Confidence.confirmed = true
is_confirmed _ = false

-- the confidence before contradictions, by the assignments of the source in their order; `independent`
-- holds two sources or more if its status, or condition, and event entries are there
unfoldable pub base_confidence : String → List DiagnosticSignal → Confidence
unfolding authoritative
base_confidence cat ss =
    let only_logs = all is_log ss in
    let auth_status = any (λ s. from_status s && authoritative cat s) ss in
    let c0 = if only_logs then Confidence.low else Confidence.medium in
    let c1 =
      if (has_source status ss || has_source condition ss) && has_source event ss
      then Confidence.high
      else c0 in
    let c2 = if auth_status then Confidence.confirmed else c1 in
    let c3 = if only_logs && is_confirmed c2 then Confidence.low else c2 in
    if not auth_status && is_confirmed c3 then Confidence.high else c3

-- the last `switch` of build
abbrev pub lowered : Confidence → Confidence
lowered Confidence.confirmed = Confidence.high
lowered Confidence.high = Confidence.medium
lowered c = c

texts_of : List DiagnosticSignal → List String
texts_of [] = []
texts_of (s ∷ ss) = let rest = texts_of ss in if s.message == "" then rest else s.message ∷ rest

-- the first three messages that are not empty
unfoldable pub messages : List DiagnosticSignal → List String
unfolding texts_of
messages ss = take 3 (texts_of ss)

-- build: `ss` are the signals of the category, `all_signals` all that were left by dedupEvents
unfoldable pub build :
    String → List DiagnosticSignal → List DiagnosticSignal → Option Impact → RootCauseHypothesis
build cat ss all_signals impact =
    let affected = unique_refs (map (λ s. s.resource) ss) in
    let contradicting = contradictions cat all_signals in
    let conf = base_confidence cat ss in
    record {
      category = cat;
      title = replace_char b'_' (char 32 tt) cat;
      explanation = join " | " (messages ss);
      message = join " | " (messages ss);
      confidence = if is_empty contradicting then conf else lowered conf;
      affected_resources = affected;
      supporting_evidence_ids = map (λ s. s.id) ss;
      contradicting_evidence_ids = contradicting;
      impact = impact;
      recommendations = advice_for cat;
      affected_replicas = pos (length affected);
    }
