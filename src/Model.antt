-- ===== src/Model.antt =====
-- internal/model/types.go
use kube_sre_mcp.Prelude.{ℕ, String, Bool, true, false, Option, List, [], ◌==◌, if◌then◌else◌}
use kube_sre_mcp.Prelude.Int.{ℤ}
use Prim.Native.String.{◌++◌}

pub data Health : Type 0 where
  healthy degraded critical unknown : Health

-- `unset` is the empty text of the zero value
pub data Confidence : Type 0 where
  unset low medium high confirmed : Confidence

pub data Severity : Type 0 where
  info warning critical : Severity

pub data ImpactSeverity : Type 0 where
  low medium high critical : ImpactSeverity

pub record ResourceRef : Type 0 where
  pub api_version : String
  pub kind : String
  pub namespace : String
  pub name : String
  pub uid : String

-- ResourceRef.String
unfoldable pub ref_string : ResourceRef → String
ref_string r =
    if r.namespace == ""
    then r.kind ++ ("/" ++ r.name)
    else r.kind ++ ("/" ++ (r.namespace ++ ("/" ++ r.name)))

pub record Finding : Type 0 where
  pub severity : Severity
  pub reason : String
  pub container : String
  pub message : String

pub record Evidence : Type 0 where
  pub id : String
  pub source : String
  pub message : String
  pub resource : ResourceRef
  pub timestamp : Option ℕ

pub record RecommendedAction : Type 0 where
  pub priority : ℤ
  pub action : String
  pub tool : String

-- the fields that assemble.go sets
pub record Impact : Type 0 where
  pub severity : ImpactSeverity
  pub summary : String

pub record RootCauseHypothesis : Type 0 where
  pub category : String
  pub title : String
  pub explanation : String
  pub message : String
  pub confidence : Confidence
  pub affected_resources : List ResourceRef
  pub supporting_evidence_ids : List String
  pub contradicting_evidence_ids : List String
  pub impact : Option Impact
  pub recommendations : List RecommendedAction
  pub affected_replicas : ℤ

pub record FailedCheck : Type 0 where
  pub operation : String
  pub resource : String
  pub error_type : String

pub record Permission : Type 0 where
  pub verb : String
  pub resource : String
  pub namespace : String

pub record Visibility : Type 0 where
  pub complete : Bool
  pub limited : Bool
  pub missing_permissions : List Permission
  pub failed_checks : List FailedCheck

unfoldable pub new_visibility : Visibility
new_visibility = record {
  complete = true;
  limited = false;
  missing_permissions = [];
  failed_checks = [];
}
