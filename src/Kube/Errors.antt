-- ===== src/Kube/Errors.antt =====
-- internal/kube/errors.go and visibility.go. An error is one in whose chain there is a *Error, or one
-- of another package, by the answers that the tests of k8s.io/apimachinery and of net give on it. The
-- field Cause is kept for Unwrap alone, and the messages of a Visibility are written and not read.
use Prim.Native.String.{◌++◌}
use kube_sre_mcp.Prelude.{
  String, Bool, true, false, ◌||◌, Option, none, some, [], ◌∷◌, ◌==◌, if◌then◌else◌,
}
use kube_sre_mcp.Prelude.Text.{contains, to_lower}
use kube_sre_mcp.Model.{Visibility}
use mathlib.Core.List

pub data ErrorKind : Type 0 where
  not_found forbidden unauthorized timeout connection api ambiguous invalid canceled : ErrorKind

pub record KubeError : Type 0 where
  pub kind : ErrorKind
  pub message : String
  pub resource : String
  pub namespace : String

-- what the tests say of an error of another package, and its text
pub record ForeignError : Type 0 where
  pub is_not_found : Bool
  pub is_forbidden : Bool
  pub is_unauthorized : Bool
  pub is_timeout : Bool
  pub is_net : Bool
  pub message : String

pub data GoError : Type 0 where
  kube : KubeError → GoError
  foreign : ForeignError → GoError

unfoldable pub kind_text : ErrorKind → String
kind_text ErrorKind.not_found = "NOT_FOUND"
kind_text ErrorKind.forbidden = "FORBIDDEN"
kind_text ErrorKind.unauthorized = "UNAUTHORIZED"
kind_text ErrorKind.timeout = "TIMEOUT"
kind_text ErrorKind.connection = "CONNECTION_ERROR"
kind_text ErrorKind.api = "API_ERROR"
kind_text ErrorKind.ambiguous = "AMBIGUOUS"
kind_text ErrorKind.invalid = "INVALID"
kind_text ErrorKind.canceled = "CANCELED"

-- Error.Error
unfoldable pub error_text : KubeError → String
unfolding kind_text
error_text e =
    if e.resource == ""
    then kind_text e.kind ++ (": " ++ e.message)
    else kind_text e.kind ++ (": " ++ (e.message ++ (" (" ++ (e.resource ++ ")"))))

-- err.Error()
unfoldable pub text_of : GoError → String
unfolding error_text
text_of (kube e) = error_text e
text_of (foreign f) = f.message

abbrev of_kind : ErrorKind → String → KubeError
of_kind kind message = record { kind = kind; message = message; resource = ""; namespace = "" }

-- Classify, of an error that is not nil
unfoldable pub classify : GoError → KubeError
classify (kube e) = e
classify (foreign f) =
    if f.is_not_found
    then of_kind ErrorKind.not_found "resource not found"
    else if f.is_forbidden
    then of_kind ErrorKind.forbidden "permission denied"
    else if f.is_unauthorized
    then of_kind ErrorKind.unauthorized "unauthorized"
    else if f.is_timeout || contains (to_lower f.message) "deadline exceeded"
    then of_kind ErrorKind.timeout "kubernetes API timeout"
    else if f.is_net
    then of_kind ErrorKind.connection "connection error talking to the API server"
    else of_kind ErrorKind.api f.message

-- IsForbidden
unfoldable pub is_forbidden : GoError → Bool
unfolding classify
is_forbidden e = elim (classify e).kind [ ErrorKind.forbidden ↦ true | _ ↦ false ]

-- IsNotFound
unfoldable pub is_not_found : GoError → Bool
unfolding classify
is_not_found e = elim (classify e).kind [ ErrorKind.not_found ↦ true | _ ↦ false ]

abbrev is_denial : ErrorKind → Bool
is_denial ErrorKind.forbidden = true
is_denial ErrorKind.unauthorized = true
is_denial _ = false

-- Record, on a Visibility that is not nil
unfoldable pub record_failure : String → String → String → Option GoError → Visibility → Visibility
unfolding classify kind_text
record_failure operation resource namespace none v = v
record_failure operation resource namespace (some e) v = record v {
  complete = false;
  limited = true;
  failed_checks = List.◌++◌ v.failed_checks (
      record {
        operation = operation;
        resource = resource;
        error_type = kind_text (classify e).kind;
      }
      ∷ []);
  missing_permissions =
      if is_denial (classify e).kind
      then List.◌++◌ v.missing_permissions
          (record { verb = operation; resource = resource; namespace = namespace } ∷ [])
      else v.missing_permissions;
}

-- IsVisibilityFailure
unfoldable pub is_visibility_failure : Option GoError → Bool
unfolding classify
is_visibility_failure none = false
is_visibility_failure (some e) = elim (classify e).kind [
  | ErrorKind.not_found ↦ false
  | ErrorKind.ambiguous ↦ false
  | ErrorKind.invalid ↦ false
  | _ ↦ true
]
