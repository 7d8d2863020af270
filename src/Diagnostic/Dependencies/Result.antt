-- ===== src/Diagnostic/Dependencies/Result.antt =====
-- internal/diagnostic/pod.go: the answer of depSignals, by the dependencies of the pod.
use kube_sre_mcp.Prelude.{
  ℕ, String, true, Option, none, some, List, [], ◌∷◌, ◌++◌, ◌≡◌, ◌↔◌, refl, ◌∙◌, sym, is_empty, All,
  arith,
}
use kube_sre_mcp.Prelude.Map.{lookup}
use kube_sre_mcp.Model.{ResourceRef}
use kube_sre_mcp.Kube.Spec.{EnvVar, EnvFrom, Container, Volume, PodSpec}
use kube_sre_mcp.Diagnostic.Scheduler.{contains_str}
use kube_sre_mcp.Diagnostic.Dependencies.{
  PodInput, Faults, config_map_faults, secret_faults, claim_faults, pull_secret_faults,
  service_account_faults, gather, if_any, env_faults, env_from_faults, container_faults,
  volume_faults, pod_faults, dependency_signals, dep_signals,
}
use kube_sre_mcp.Diagnostic.Dependencies.Met.{
  HasConfigMap, HasSecret, HasClaim, HasPullSecret, HasServiceAccount, config_map_iff, secret_iff,
  claim_iff, pull_secret_iff, service_account_iff,
}

-- a property of what is there, if anything is
abbrev pub IfAny : {A : Type 0} → (A → Type 0) → Option A → Type 0
IfAny P none = Unit
IfAny P (some a) = P a

if_any_iff :
    {A : Type 0} (f : A → Faults) (P : A → Type 0) (o : Option A)
    → ((a : A) → (is_empty (f a) ≡ true) ↔ P a)
    → (is_empty (if_any f o) ≡ true) ↔ IfAny P o
if_any_iff f P none h = (λ _. tt, λ _. refl)
if_any_iff f P (some a) h = h a

append_iff :
    (xs ys : Faults) {P Q : Type 0}
    → (is_empty xs ≡ true) ↔ P
    → (is_empty ys ≡ true) ↔ Q
    → (is_empty (xs ++ ys) ≡ true) ↔ (P × Q)
append_iff [] ys p q = (λ h. (p.0 refl, q.0 h), λ (a, b). q.1 b)
append_iff (x ∷ xs) ys p q = (λ h. absurd (ground arith), λ (a, b). p.1 a)

gather_iff :
    {A : Type 0} (f : A → Faults) (P : A → Type 0) (xs : List A)
    → ((a : A) → (is_empty (f a) ≡ true) ↔ P a)
    → (is_empty (gather f xs) ≡ true) ↔ All P xs
unfolding gather
gather_iff f P [] h = (λ _. tt, λ _. refl)
gather_iff f P (x ∷ xs) h = append_iff (f x) (gather f xs) (h x) (gather_iff f P xs h)

module _ (input : PodInput) where
  abbrev pub HasEnv : EnvVar → Type 0
  unfolding lookup contains_str
  HasEnv e =
      IfAny (λ k. HasConfigMap input k.name k.key) e.config_map
      × IfAny (λ k. HasSecret input k.name k.key) e.secret

  abbrev pub HasEnvFrom : EnvFrom → Type 0
  unfolding lookup contains_str
  HasEnvFrom e =
      IfAny (λ name. HasConfigMap input name "") e.config_map
      × IfAny (λ name. HasSecret input name "") e.secret

  abbrev pub HasVolume : Volume → Type 0
  unfolding lookup contains_str
  HasVolume v =
      IfAny (λ name. HasConfigMap input name "") v.config_map
      × (IfAny (λ name. HasSecret input name "") v.secret
          × IfAny (λ name. HasClaim input name) v.claim)

  abbrev pub HasForContainer : Container → Type 0
  unfolding lookup contains_str
  HasForContainer c = All HasEnv c.env × All HasEnvFrom c.env_from

  -- everything that the pod names is there, as far as is known
  abbrev pub HasDependencies : PodSpec → Type 0
  unfolding lookup contains_str
  HasDependencies spec =
      All HasForContainer spec.containers
      × (All HasForContainer spec.init_containers
          × (All HasVolume spec.volumes
              × (HasServiceAccount input spec.service_account_name
                  × All (HasPullSecret input) spec.image_pull_secrets)))

  env_iff : (e : EnvVar) → (is_empty (env_faults input e) ≡ true) ↔ HasEnv e
  unfolding lookup contains_str config_map_faults secret_faults
  env_iff e =
      append_iff (if_any (λ k. config_map_faults input k.name k.key) e.config_map) _
        (if_any_iff (λ k. config_map_faults input k.name k.key)
          (λ k. HasConfigMap input k.name k.key) e.config_map
          (λ k. config_map_iff input k.name k.key))
        (if_any_iff (λ k. secret_faults input k.name k.key) (λ k. HasSecret input k.name k.key)
          e.secret (λ k. secret_iff input k.name k.key))

  named_iff :
      (c s : Option String)
      → (is_empty (
            if_any (λ name. config_map_faults input name "") c
            ++ if_any (λ name. secret_faults input name "") s)
          ≡ true)
        ↔ (IfAny (λ name. HasConfigMap input name "") c × IfAny (λ name. HasSecret input name "") s)
  unfolding lookup contains_str
  named_iff c s =
      append_iff (if_any (λ name. config_map_faults input name "") c) _
        (if_any_iff (λ name. config_map_faults input name "") (λ name. HasConfigMap input name "") c
          (λ name. config_map_iff input name ""))
        (if_any_iff (λ name. secret_faults input name "") (λ name. HasSecret input name "") s
          (λ name. secret_iff input name ""))

  env_from_iff : (e : EnvFrom) → (is_empty (env_from_faults input e) ≡ true) ↔ HasEnvFrom e
  unfolding lookup contains_str config_map_faults secret_faults
  env_from_iff e = named_iff e.config_map e.secret

  volume_iff : (v : Volume) → (is_empty (volume_faults input v) ≡ true) ↔ HasVolume v
  unfolding volume_faults lookup contains_str
  volume_iff v =
      append_iff (if_any (λ name. config_map_faults input name "") v.config_map) _
        (if_any_iff (λ name. config_map_faults input name "") (λ name. HasConfigMap input name "")
          v.config_map (λ name. config_map_iff input name ""))
        (append_iff (if_any (λ name. secret_faults input name "") v.secret) _
          (if_any_iff (λ name. secret_faults input name "") (λ name. HasSecret input name "")
            v.secret (λ name. secret_iff input name ""))
          (if_any_iff (λ name. claim_faults input name) (HasClaim input) v.claim (claim_iff input)))

  container_iff : (c : Container) → (is_empty (container_faults input c) ≡ true) ↔ HasForContainer c
  unfolding container_faults lookup contains_str config_map_faults secret_faults
  container_iff c =
      append_iff (gather (env_faults input) c.env) _
        (gather_iff (env_faults input) HasEnv c.env env_iff)
        (gather_iff (env_from_faults input) HasEnvFrom c.env_from env_from_iff)

  pod_iff : (spec : PodSpec) → (is_empty (pod_faults input spec) ≡ true) ↔ HasDependencies spec
  unfolding pod_faults lookup contains_str
  pod_iff spec =
      append_iff (gather (container_faults input) spec.containers) _
        (gather_iff (container_faults input) HasForContainer spec.containers container_iff)
        (append_iff (gather (container_faults input) spec.init_containers) _
          (gather_iff (container_faults input) HasForContainer spec.init_containers container_iff)
          (append_iff (gather (volume_faults input) spec.volumes) _
            (gather_iff (volume_faults input) HasVolume spec.volumes volume_iff)
            (append_iff (service_account_faults input spec.service_account_name) _
              (service_account_iff input spec.service_account_name)
              (gather_iff (pull_secret_faults input) (HasPullSecret input) spec.image_pull_secrets
                (pull_secret_iff input)))))

no_signals :
    (ref : ResourceRef) (id : ℕ) (faults : Faults)
    → is_empty (dependency_signals ref id faults) ≡ is_empty faults
unfolding dependency_signals
no_signals ref id [] = refl
no_signals ref id ((reason, msg) ∷ faults) = refl

-- depSignals reports nothing exactly when everything that the pod's containers, its ConfigMap, Secret
-- and claim volumes, its service account and its image pull secrets name is there, as far as is
-- known: every ConfigMap and Secret with the key that is asked for, every claim bound. The sources of
-- projected volumes, which depSignals does not look at, are not among these.
pub dep_signals_iff :
    (input : PodInput) (spec : PodSpec) (ref : ResourceRef) (id : ℕ)
    → (is_empty (dep_signals input spec ref id) ≡ true) ↔ HasDependencies input spec
unfolding dep_signals
dep_signals_iff input spec ref id =
    let n = no_signals ref id (pod_faults input spec) in
    (λ h. (pod_iff input spec).0 (sym n ∙ h), λ m. n ∙ (pod_iff input spec).1 m)
