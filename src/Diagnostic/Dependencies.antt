-- ===== src/Diagnostic/Dependencies.antt =====
-- internal/diagnostic/pod.go: depSignals, nodeConditionSignals and UnhealthyPod. The sets seenCM and
-- seenSec are written and not read.
use Prim.Native.String
use kube_sre_mcp.Prelude.{
  ℕ, suc, String, Bool, true, false, ◌&&◌, ◌||◌, not, Option, none, some, List, [], ◌∷◌, ◌++◌, ◌==◌,
  is_some, if◌then◌else◌,
}
use kube_sre_mcp.Prelude.Int.{ℤ, pos, ℤ_lt}
use kube_sre_mcp.Prelude.Map.{StringMap, lookup}
use kube_sre_mcp.Prelude.Text.{decimal}
use kube_sre_mcp.Model.{ResourceRef, Severity, Confidence}
use kube_sre_mcp.Signal.{DiagnosticSignal, Source, new}
use kube_sre_mcp.Kube.Types.{Condition, ContainerStatus}
use kube_sre_mcp.Kube.Spec.{KeyRef, EnvVar, EnvFrom, Container, Volume, PodSpec, ClaimObject}
use kube_sre_mcp.Diagnostic.Scheduler.{contains_str}
pub mod Met
pub mod Result

pub record ConfigMap : Type 0 where
  pub entries : StringMap String  -- Data
  pub binary_data : StringMap String

-- the fields of PodInput that depSignals reads
pub record PodInput : Type 0 where
  pub config_maps : StringMap ConfigMap
  pub config_map_unknown : StringMap Bool
  pub secret_keys : Option (StringMap (List String))
  pub secrets_exist : StringMap Bool
  pub secret_unknown : StringMap Bool
  pub claims : StringMap ClaimObject
  pub claim_unknown : StringMap Bool
  pub service_account : Bool  -- it is not nil
  pub service_account_unknown : Bool

-- m[k] of a map of booleans
abbrev pub is_set : StringMap Bool → String → Bool
unfolding lookup
is_set m k = elim (lookup k m) [ none ↦ false | some b ↦ b ]

abbrev pub keys_of : StringMap (List String) → String → List String
unfolding lookup
keys_of m k = elim (lookup k m) [ none ↦ [] | some keys ↦ keys ]

-- a reason and a message
abbrev pub Faults : Type 0
Faults = List (String × String)

abbrev fault : String → String → String → String → Faults
fault reason before name after = (reason, String.◌++◌ before (String.◌++◌ name after)) ∷ []

module _ (input : PodInput) where
  -- addCM
  unfoldable pub config_map_faults : String → String → Faults
  unfolding lookup
  config_map_faults name key = if name == "" then [] else elim (lookup name input.config_maps) [
    | none ↦
        if is_set input.config_map_unknown name
        then []
        else fault "MISSING_CONFIGMAP" "ConfigMap " name " not found"
    | some cm ↦
        if not (key == "")
          && not (is_some (lookup key cm.entries))
          && not (is_some (lookup key cm.binary_data))
        then fault "MISSING_CONFIGMAP" "ConfigMap " name (String.◌++◌ " missing key " key)
        else []
  ]

  -- addSec
  unfoldable pub secret_faults : String → String → Faults
  unfolding lookup contains_str
  secret_faults name key =
      if name == "" || is_set input.secret_unknown name
      then []
      else elim (lookup name input.secrets_exist) [
        | none ↦ []
        | some false ↦ fault "MISSING_SECRET" "Secret " name " not found"
        | some true ↦ elim input.secret_keys [
          | none ↦ []
          | some keys ↦
              if not (key == "") && not (contains_str (keys_of keys name) key)
              then fault "MISSING_SECRET" "Secret " name (String.◌++◌ " missing key " key)
              else []
        ]
      ]

  -- the branch of a claim
  unfoldable pub claim_faults : String → Faults
  unfolding lookup
  claim_faults claim =
      if is_set input.claim_unknown claim then [] else elim (lookup claim input.claims) [
        | none ↦ fault "PVC_NOT_FOUND" "PVC " claim " not found"
        | some pvc ↦
            if pvc.phase == "Bound"
            then []
            else fault "PVC_PENDING" "PVC " pvc.meta.name (String.◌++◌ " phase=" pvc.phase)
      ]

  -- the loop over the image pull secrets
  unfoldable pub pull_secret_faults : String → Faults
  unfolding lookup
  pull_secret_faults name =
      if is_set input.secret_unknown name then [] else elim (lookup name input.secrets_exist) [
        | some false ↦ fault "MISSING_SECRET" "imagePullSecret " name " not found"
        | _ ↦ []
      ]

  unfoldable pub service_account_faults : String → Faults
  service_account_faults name =
      if not (name == "") && not input.service_account && not input.service_account_unknown
      then fault "MISSING_SERVICE_ACCOUNT" "ServiceAccount " name " not found"
      else []

-- the faults of the elements of a list, in order
unfoldable pub gather : {A : Type 0} → (A → Faults) → List A → Faults
gather f [] = []
gather f (x ∷ xs) = f x ++ gather f xs

abbrev pub if_any : {A : Type 0} → (A → Faults) → Option A → Faults
if_any f none = []
if_any f (some a) = f a

module _ (input : PodInput) where
  abbrev pub env_faults : EnvVar → Faults
  unfolding config_map_faults secret_faults
  env_faults e =
      if_any (λ k. config_map_faults input k.name k.key) e.config_map
      ++ if_any (λ k. secret_faults input k.name k.key) e.secret

  abbrev pub env_from_faults : EnvFrom → Faults
  unfolding config_map_faults secret_faults
  env_from_faults e =
      if_any (λ name. config_map_faults input name "") e.config_map
      ++ if_any (λ name. secret_faults input name "") e.secret

  -- walk
  unfoldable pub container_faults : Container → Faults
  unfolding gather config_map_faults secret_faults
  container_faults c = gather env_faults c.env ++ gather env_from_faults c.env_from

  unfoldable pub volume_faults : Volume → Faults
  unfolding config_map_faults secret_faults claim_faults
  volume_faults v =
      if_any (λ name. config_map_faults input name "") v.config_map
      ++ (if_any (λ name. secret_faults input name "") v.secret
          ++ if_any (λ name. claim_faults input name) v.claim)

  -- what depSignals reports, in order
  unfoldable pub pod_faults : PodSpec → Faults
  unfolding gather container_faults volume_faults service_account_faults pull_secret_faults
  pod_faults spec =
      gather container_faults spec.containers
      ++ (gather container_faults spec.init_containers
          ++ (gather volume_faults spec.volumes
              ++ (service_account_faults input spec.service_account_name
                  ++ gather (pull_secret_faults input) spec.image_pull_secrets)))

unfoldable pub dependency_signals : ResourceRef → ℕ → List (String × String) → List DiagnosticSignal
unfolding new decimal
dependency_signals ref id [] = []
dependency_signals ref id ((reason, msg) ∷ faults) =
    new (String.◌++◌ "E-DEP-" (decimal id)) Source.dependency "Dependency" reason Severity.critical
      Confidence.high ref msg
    ∷ dependency_signals ref (suc id) faults

-- depSignals
unfoldable pub dep_signals : PodInput → PodSpec → ResourceRef → ℕ → List DiagnosticSignal
unfolding pod_faults dependency_signals
dep_signals input spec ref id = dependency_signals ref id (pod_faults input spec)
