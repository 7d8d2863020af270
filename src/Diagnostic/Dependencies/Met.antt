-- ===== src/Diagnostic/Dependencies/Met.antt =====
-- internal/diagnostic/pod.go: depSignals against a description of a pod whose dependencies are there.
use kube_sre_mcp.Prelude.{
  String, true, false, ◌||◌, none, some, List, ◌==◌, ◌≡◌, ◌⊎◌, ◌↔◌, inl, inr, is_empty, is_some,
  Bool-cases, Option-cases, eq_iff, arith,
}
use kube_sre_mcp.Prelude.Map.{StringMap, lookup}
use kube_sre_mcp.Kube.Spec.{ClaimObject}
use kube_sre_mcp.Diagnostic.Scheduler.{contains_str}
use kube_sre_mcp.Diagnostic.Dependencies.{
  ConfigMap, PodInput, is_set, keys_of, config_map_faults, secret_faults, claim_faults,
  pull_secret_faults, service_account_faults,
}

module _ (input : PodInput) where
  -- the ConfigMap is not named, or could not be read, or is there with the key
  abbrev pub HasConfigMap : String → String → Type 0
  unfolding lookup
  HasConfigMap name key =
      (name ≡ "")
      ⊎ (((lookup name input.config_maps ≡ none) × (is_set input.config_map_unknown name ≡ true))
          ⊎ ((cm : ConfigMap) × (lookup name input.config_maps ≡ some cm)
              × ((key ≡ "")
                  ⊎ ((is_some (lookup key cm.entries) ≡ true)
                      ⊎ (is_some (lookup key cm.binary_data) ≡ true)))))

  -- the Secret is not named, or nothing is known of it, or it exists and has the key, where its keys are
  -- known
  abbrev pub HasKey : String → String → Type 0
  unfolding lookup contains_str
  HasKey name key =
      (input.secret_keys ≡ none)
      ⊎ ((keys : StringMap (List String)) × (input.secret_keys ≡ some keys)
          × ((key ≡ "") ⊎ (contains_str (keys_of keys name) key ≡ true)))

  abbrev pub HasSecret : String → String → Type 0
  unfolding lookup contains_str
  HasSecret name key =
      ((name == "" || is_set input.secret_unknown name) ≡ true)
      ⊎ ((lookup name input.secrets_exist ≡ none)
          ⊎ ((lookup name input.secrets_exist ≡ some true) × HasKey name key))

  -- the claim could not be read, or is bound
  abbrev pub HasClaim : String → Type 0
  unfolding lookup
  HasClaim claim =
      (is_set input.claim_unknown claim ≡ true)
      ⊎ ((pvc : ClaimObject) × (lookup claim input.claims ≡ some pvc) × (pvc.phase ≡ "Bound"))

  -- an image pull secret is not known to be missing
  abbrev pub HasPullSecret : String → Type 0
  unfolding lookup
  HasPullSecret name =
      (is_set input.secret_unknown name ≡ true)
      ⊎ ((lookup name input.secrets_exist ≡ none) ⊎ (lookup name input.secrets_exist ≡ some true))

  abbrev pub HasServiceAccount : String → Type 0
  HasServiceAccount name =
      (name ≡ "") ⊎ ((input.service_account ≡ true) ⊎ (input.service_account_unknown ≡ true))

  pub config_map_iff :
      (name key : String)
      → (is_empty (config_map_faults input name key) ≡ true) ↔ HasConfigMap name key
  unfolding config_map_faults lookup
  config_map_iff name key = (
    λ h. elim (Bool-cases (name == "")) [
      | inl e ↦ inl ((eq_iff name "").0 e)
      | inr e ↦ elim (Option-cases (lookup name input.config_maps)) [
        | inl q ↦ inr (inl (q, ground arith))
        | inr (cm, q) ↦ inr (inr (cm, q, ground (arith, eq_iff key "")))
      ]
    ],
    λ m. elim m [
      | inl e ↦ ground (arith, eq_iff name "")
      | inr (inl (q, u)) ↦ ground arith
      | inr (inr (cm, q, k)) ↦ ground (arith, eq_iff key "")
    ],
  )

  pub secret_iff :
      (name key : String) → (is_empty (secret_faults input name key) ≡ true) ↔ HasSecret name key
  unfolding secret_faults lookup contains_str
  secret_iff name key = (
    λ h. elim (Bool-cases (name == "" || is_set input.secret_unknown name)) [
      | inl e ↦ inl e
      | inr e ↦ elim (Option-cases (lookup name input.secrets_exist)) [
        | inl q ↦ inr (inl q)
        | inr (false, q) ↦ absurd (ground arith)
        | inr (true, q) ↦ elim (Option-cases input.secret_keys) [
          | inl k ↦ inr (inr (q, inl k))
          | inr (keys, k) ↦ inr (inr (q, inr (keys, k, ground (arith, eq_iff key ""))))
        ]
      ]
    ],
    λ m. elim m [
      | inl e ↦ ground arith
      | inr (inl q) ↦ ground arith
      | inr (inr (q, inl k)) ↦ ground arith
      | inr (inr (q, inr (keys, k, c))) ↦ ground (arith, eq_iff key "")
    ],
  )

  pub claim_iff : (claim : String) → (is_empty (claim_faults input claim) ≡ true) ↔ HasClaim claim
  unfolding claim_faults lookup
  claim_iff claim = (
    λ h. elim (Bool-cases (is_set input.claim_unknown claim)) [
      | inl e ↦ inl e
      | inr e ↦ elim (Option-cases (lookup claim input.claims)) [
        | inl q ↦ absurd (ground arith)
        | inr (pvc, q) ↦ inr (pvc, q, ground (arith, eq_iff pvc.phase "Bound"))
      ]
    ],
    λ m. elim m [
      | inl e ↦ ground arith
      | inr (pvc, q, b) ↦ ground (arith, eq_iff pvc.phase "Bound")
    ],
  )

  pub pull_secret_iff :
      (name : String) → (is_empty (pull_secret_faults input name) ≡ true) ↔ HasPullSecret name
  unfolding pull_secret_faults lookup
  pull_secret_iff name = (λ h. ground arith, λ m. ground arith)

  pub service_account_iff :
      (name : String)
      → (is_empty (service_account_faults input name) ≡ true) ↔ HasServiceAccount name
  unfolding service_account_faults
  service_account_iff name =
      (λ h. ground (arith, eq_iff name ""), λ m. ground (arith, eq_iff name ""))
